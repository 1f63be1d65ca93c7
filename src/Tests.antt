-- ===== src/Tests.antt =====
-- The theorems at concrete inputs, and runs of the definitions.
mod Samples
mod Ring
mod Scheduler
mod Steps
mod Starting
mod Objects
mod Lists
mod Events
mod Bytes
mod Pages
mod Messages
mod Registry
mod Ticks
mod Files
mod Port
mod Typing
mod Creation
