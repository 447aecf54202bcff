-- ===== src/Examples.antt =====
-- Concrete runs: a small kernel and frame, tests, and each theorem at an input.
pub mod Regions
pub mod Ports
pub mod Kernel
pub mod Demo
pub mod Device
mod Strings
mod Io
mod Heap
mod Mach
mod Init
mod PanicLog
mod Serial
