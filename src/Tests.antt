-- ===== src/Tests.antt =====
-- Runs of the library on a small machine.
mod Machine
mod Examples
mod Converter
mod Writing
mod Calling
mod Keyboard
mod Program
mod Counting
mod Terminal
