-- ===== src/Tests.antt =====
-- Instances of the theorems, and runs.
mod Registry
mod Names
mod FreeName
mod Shared
mod Task
mod Lock
mod Setup
mod Param
mod Processes
mod Rtai
mod Glue
mod Dump
mod Bridge
mod Atomic
mod Tools
mod Kernel
mod Order
mod Lifecycle
