-- ===== src/Buffer.antt =====
-- include/network/Buffer.h: the byte buffer between a socket and the application.
-- A byte is a number. The `ssize_t` members are never negative while `r ≤ w ≤ capacity`, so they
-- are natural numbers; `-` is exact there. What the kernel does in `readv` and `write` is an
-- argument of the operation, and so is the `errno` that it leaves.
pub mod Memory
pub mod Contents
pub mod Io
pub mod Queue
mod Tests
use fluent_net.Prelude.{
  ℕ, ◌+◌, ◌-◌, ◌*◌, ◌/◌, ◌^◌, Bool, true, false, ◌&&◌, List, [], ◌∷◌, if◌then◌else◌, ltb, leb, ◌==◌,
  length, take, drop, replicate,
}
use fluent_net.Algorithms.{round_to_power_of_two}
use fluent_net.Errors.{Result, ok, throw, Exception, write_exception, eagain, eintr}
use Memory.{overwrite, resize}

pub record Buffer : Type 0 where
  pub buf : List ℕ
  pub capacity : ℕ
  pub r : ℕ
  pub w : ℕ

unfoldable pub new : ℕ → Buffer
new size = record { buf = replicate size 0; capacity = size; r = 0; w = 0 }

abbrev pub unread : Buffer → ℕ
unread b = b.w - b.r

abbrev pub unwrite : Buffer → ℕ
unwrite b = b.capacity - b.w

abbrev pub available : Buffer → ℕ
available b = b.capacity - unread b

unfoldable pub clear : Buffer → Buffer
clear b = record b { r = 0; w = 0 }

-- `gc()`: moves the unread bytes to the front.
unfoldable pub gc : Buffer → Buffer
gc b =
    if ltb 0 b.r
    then record b {
      buf = overwrite b.buf 0 (take (unread b) (drop b.r b.buf));
      w = unread b;
      r = 0;
    }
    else b

unfoldable pub reuse_if_possible : Buffer → Buffer
reuse_if_possible b =
    if b.r == b.w
    then clear b
    else (if ltb (unread b) (b.capacity / 16) && ltb (b.capacity / 16) b.r then gc b else b)

unfoldable pub expand : Buffer → Buffer
expand b = record b { buf = resize (b.capacity * 2) b.buf; capacity = b.capacity * 2 }

unfoldable pub expand_to : Buffer → ℕ → Buffer
expand_to b size = record b { buf = resize size b.buf; capacity = size }

unfoldable pub has_read : Buffer → ℕ → Buffer
has_read b n = reuse_if_possible (record b { r = b.r + n })

unfoldable pub has_written : Buffer → ℕ → Buffer
has_written b n = record b { w = b.w + n }

-- The second half of `gc(hint)`, after `gc()`.
unfoldable pub make_room : Buffer → ℕ → Buffer
make_room b hint =
    if ltb (available b) hint
    then expand_to b (round_to_power_of_two (length b.buf + (hint - available b)))
    else b

-- `gc(hint)`: room for `hint` more bytes behind `w`.
unfoldable pub gc_hint : Buffer → ℕ → Buffer
gc_hint b hint = if leb hint (unwrite b) then b else make_room (gc b) hint

-- `memcpy(writeBuffer(), data, size)` and `hasWritten(size)`
unfoldable pub store : Buffer → List ℕ → Buffer
store b bytes = has_written (record b { buf = overwrite b.buf b.w bytes }) (length bytes)

unfoldable pub append : Buffer → List ℕ → Buffer
append b bytes = store (gc_hint b (length bytes)) bytes

-- The bytes that `readv` got, at most `unwrite b + 2 ^ 16` of them, or its failure.
pub data Received : Type 0 where
  got : List ℕ → Received
  read_failed : ℕ → Received

-- The first bytes land behind `w`, the rest in the local buffer of 2 ^ 16 bytes.
unfoldable pub fill : Buffer → List ℕ → Buffer
fill b bytes =
    if leb (length bytes) (unwrite b)
    then store b bytes
    else append (store b (take (unwrite b) bytes)) (drop (unwrite b) bytes)

unfoldable pub read_from : Buffer → Received → Buffer
read_from b (got bytes) = if ltb 0 (length bytes) then fill b bytes else b
read_from b (read_failed errno) = b

-- What `write` answers: the count of bytes taken, or `errno`.
pub data Sent : Type 0 where
  sent : ℕ → Sent
  write_failed : ℕ → Sent

abbrev pub is_transient : ℕ → Bool
is_transient errno = if errno == eagain then true else errno == eintr

-- The value and the buffer of `writeTo(fd)`.
unfoldable pub write_to : Buffer → Sent → Result (ℕ × Buffer)
write_to b (sent n) = ok (n, has_read b n)
write_to b (write_failed errno) =
    if is_transient errno then ok (0, has_read b 0) else throw (write_exception errno)
