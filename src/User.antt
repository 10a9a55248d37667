-- ===== src/User.antt =====
-- modcapstone/userspace: the library through which programs use the device of the kernel module.
pub mod Regions
pub mod File
pub mod Elf
pub mod Calls
mod Tests
