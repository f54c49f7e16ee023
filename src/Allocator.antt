-- ===== src/Allocator.antt =====
-- port/src/allocator.rs: the bump allocator and the QuickFit allocator over it.
pub mod Block
pub mod Bump
pub mod Place
pub mod Store
pub mod Quick
pub mod Fit
pub mod Steps
pub mod Unlink
pub mod NewHeader
pub mod Large
pub mod Reuse
pub mod Global
