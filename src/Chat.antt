-- ===== src/Chat.antt =====
-- src/ah_there_it_is/services/chat_requests.py: the idempotency gate before the agent.
pub mod Store
pub mod Reserve
pub mod Execute
pub mod Records
pub mod Agents
pub mod Replay
pub mod Known
pub mod Again
pub mod Pages
pub mod Effects
