-- ===== src/Loop.antt =====
-- The request loop of optee_client/tee-supplicant/tee_supplicant.c: find_params, and the threads that
-- take requests, with the count of waiters that they share under a mutex.
pub mod Params
pub mod Threads
pub mod Waiters
pub mod Serve
pub mod Requests
pub mod Answered
pub mod Load
pub mod Device
pub mod TaPath
pub mod Directories
pub mod Setup
pub mod Daemon
mod Tests
mod SetupTests
mod AnsweredTests
