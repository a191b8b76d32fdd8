-- ===== src/SymbolTable.antt =====
-- src/compiler/symboltable.hh: `SymbolTable` and `FrameTable`.
pub mod Map
pub mod Store
pub mod Frames
