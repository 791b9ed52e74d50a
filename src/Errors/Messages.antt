-- ===== src/Errors/Messages.antt =====
-- include/throws: the texts of the exceptions, as the codes of their characters.
use Prim.Native.String.{String}
use fluent_net.Prelude.{ℕ, Option, none, some, List, ◌∷◌, ◌++◌, codes}
use fluent_net.Errors.{
  Exception, fluent_exception, runtime_error, socket_exception, socket_create_exception,
  socket_bind_exception, socket_listen_exception, socket_accept_exception, read_exception,
  write_exception, epoll_create_exception, epoll_wait_exception, epoll_control_exception,
}

-- The `TAG` of each class.
abbrev pub socket_tag : String
socket_tag = "socket exception"

abbrev pub socket_create_tag : String
socket_create_tag = "socket create exception"

abbrev pub socket_bind_tag : String
socket_bind_tag = "socket bind exception"

abbrev pub socket_listen_tag : String
socket_listen_tag = "socket listen exception"

abbrev pub socket_accept_tag : String
socket_accept_tag = "socket accept exception"

abbrev pub read_tag : String
read_tag = "read exception"

abbrev pub write_tag : String
write_tag = "write exception"

abbrev pub epoll_create_tag : String
epoll_create_tag = "epoll create exception"

abbrev pub epoll_wait_tag : String
epoll_wait_tag = "epoll create exception"

abbrev pub epoll_control_tag : String
epoll_control_tag = "epoll control exception"

-- The tag and the `errno` of an exception that has them.
abbrev pub tag_of : Exception → Option (String × ℕ)
tag_of fluent_exception = none
tag_of runtime_error = none
tag_of (socket_exception err) = some (socket_tag, err)
tag_of (socket_create_exception err) = some (socket_create_tag, err)
tag_of (socket_bind_exception err) = some (socket_bind_tag, err)
tag_of (socket_listen_exception err) = some (socket_listen_tag, err)
tag_of (socket_accept_exception err) = some (socket_accept_tag, err)
tag_of (read_exception err) = some (read_tag, err)
tag_of (write_exception err) = some (write_tag, err)
tag_of (epoll_create_exception err) = some (epoll_create_tag, err)
tag_of (epoll_wait_exception err) = some (epoll_wait_tag, err)
tag_of (epoll_control_exception err) = some (epoll_control_tag, err)

-- `what()` of an exception with an `errno`, where `strerror` is that of the C library.
abbrev pub tagged_text : (ℕ → List ℕ) → Option (String × ℕ) → Option (List ℕ)
tagged_text strerror none = none
tagged_text strerror (some (tag, err)) = some (codes tag ++ 32 ∷ strerror err)

abbrev pub what : (ℕ → List ℕ) → Exception → Option (List ℕ)
what strerror e = tagged_text strerror (tag_of e)

-- `errorCode()`
abbrev pub code_in : Option (String × ℕ) → Option ℕ
code_in none = none
code_in (some (tag, err)) = some err

abbrev pub error_code : Exception → Option ℕ
error_code e = code_in (tag_of e)
