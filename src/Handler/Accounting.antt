-- ===== src/Handler/Accounting.antt =====
-- include/network/Context.h and include/handler/Handler.h: the books of the output side, kept by
-- sending and by writing.
pub mod Sending
pub mod Telling
pub mod Writing
