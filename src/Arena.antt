-- ===== src/Arena.antt =====
-- agenc-arena: the region allocator of agenc-arena/src/arena.c over the memory of `Memory`.
pub mod Types
pub mod Align
pub mod Block
pub mod Bump
pub mod Resize
pub mod Scope
pub mod Life
pub mod Measure
pub mod Names
pub mod Tests
