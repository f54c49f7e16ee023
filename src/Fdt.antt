-- ===== src/Fdt.antt =====
-- port/src/fdt.rs: the parser of flattened device trees, module by module.
pub mod Reg
pub mod Progress
pub mod Shape
pub mod Find
pub mod Translate
pub mod Words
pub mod Load
pub mod Bytes
pub mod Header
pub mod Token
pub mod Node
pub mod Prop
pub mod Tree
pub mod Cells
