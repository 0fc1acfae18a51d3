-- ===== src/UserLib.antt =====
-- The C library of the user programs, GPT-5.2-Codex/code/user/lib: blocks of memory and strings,
-- name patterns, numbers, searching, and formatted output. A byte is a number below 256 and `char` is
-- compared as a byte.
pub mod Fnmatch
pub mod Mem
pub mod Printf
pub mod Search
pub mod Stdlib
pub mod Str
