-- ===== src/Kernel.antt =====
-- The Caplifive kernel module, package/modcapstone/module/capstone.c.
pub mod Sbi
pub mod Table
pub mod Mmap
pub mod Domain
pub mod Ioctl
pub mod Tests
