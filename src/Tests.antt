-- ===== src/Tests.antt =====
-- Runs of the program's parts on concrete inputs, and the theorems on such inputs.
mod Setting
mod Linux
mod Utilities
mod Messages
mod Attributes
mod Screen
mod Collections
mod Connections
mod Kernel
mod Series
mod Rounds
mod Descriptors
mod Replies
mod Clocks
