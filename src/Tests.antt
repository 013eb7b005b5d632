-- ===== src/Tests.antt =====
-- Runs of the definitions at concrete inputs: an index of 128 slots, and a word with other threads.
mod Dict
mod Integers
mod Tables
mod References
mod Resizing
mod Construction
mod Growing
mod Electing
mod Interleaving
