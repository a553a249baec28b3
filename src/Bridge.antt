-- ===== src/Bridge.antt =====
-- adapters/async_bridge.py: how a sync thread hands work to an asyncio loop. Threads enqueue under a lock
-- and wake the loop at most once for a burst; on the loop a drainer takes what has come and starts each
-- coroutine on a pool of workers. A coroutine and a callback are numbers by which they are told apart.
pub mod Handoff
pub mod Pool
pub mod Topics
pub mod Base
