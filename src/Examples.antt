-- ===== src/Examples.antt =====
-- The theorems and the model at concrete states.
pub mod States
pub mod Machine
pub mod Devices
pub mod Arithmetic
pub mod Accesses
pub mod Listing
pub mod Screens
