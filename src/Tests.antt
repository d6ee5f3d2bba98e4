-- ===== src/Tests.antt =====
-- Each theorem with hypotheses, or with arguments at all, at one concrete input.
mod Buffers
mod Timers
mod Lifecycles
mod Loops
mod Connections
mod Logs
mod Async
mod Files
mod Handshake
mod Lines
mod Threads
mod Locks
mod Processes
