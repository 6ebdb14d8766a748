-- ===== src/Agent.antt =====
-- agent/datainfo_agent.c: the queue of replies, the handlers of the requests, and one update.
pub mod Queue
pub mod Info
pub mod Files
pub mod Requests
pub mod Life
pub mod Start
