-- ===== src/Examples.antt =====
-- The theorems at concrete inputs, and runs of the definitions.
mod Data
mod Reading
mod Writing
mod Formatting
mod Mounting
mod Images
mod Checking
