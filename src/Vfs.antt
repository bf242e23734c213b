-- ===== src/Vfs.antt =====
-- The file operations that tee-supplicant carries out for the secure world:
-- the handlers vfs_* of optee_client/tee-supplicant/tee_supplicant.c and their dispatch.
pub mod Libc
pub mod Files
pub mod Paths
pub mod Process
pub mod Dispatch
pub mod Frame
mod Tests
