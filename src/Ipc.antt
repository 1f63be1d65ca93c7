-- ===== src/Ipc.antt =====
-- The communication objects (ipc/): the lists of suspended threads that they share, and each object.
pub mod Base
pub mod Waiting
pub mod Waking
pub mod Blocked
pub mod Parked
pub mod Notified
pub mod Semaphore
pub mod Mutex
pub mod Event
pub mod Mailbox
pub mod MsgQueue
pub mod Completion
pub mod Steps
