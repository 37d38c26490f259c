-- ===== src/Str.antt =====
-- agenc-str: the growable byte string of agenc-str/src/str.c over the memory of `Memory`.
pub mod Types
pub mod Size
pub mod Source
pub mod Valid
pub mod Separate
pub mod Buffer
pub mod Names
pub mod Write
pub mod Edit
pub mod Lend
pub mod Replace
pub mod Format
pub mod Api
pub mod Session
pub mod Observe
pub mod Life
pub mod View
pub mod Trim
pub mod Search
pub mod Split
