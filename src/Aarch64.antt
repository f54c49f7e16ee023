-- ===== src/Aarch64.antt =====
-- aarch64/src: the kernel's address space and its page allocator.
pub mod Discover
pub mod Drivers
pub mod Io
pub mod Kmem
pub mod Mailbox
pub mod Pagealloc
pub mod Registers
pub mod Uart
pub mod Vm
