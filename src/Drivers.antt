-- ===== src/Drivers.antt =====
-- The compiler drivers (pkg/drivers): command lines that stand in for gcc, g++, clang and ar.
mod Samples
mod FlagSamples
pub mod Gcc
pub mod Ar
pub mod Flags
