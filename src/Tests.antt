-- ===== src/Tests.antt =====
-- The theorems at concrete inputs, and runs of the definitions.
mod Variable
mod Platforms
mod Queues
mod Others
mod Interleaved
mod Locks
mod Selected
mod Shared
mod Solo
mod Retrying
mod Delayed
mod Resets
