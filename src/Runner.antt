-- ===== src/Runner.antt =====
-- src/ah_there_it_is/agent/runner.py, with agent/protocol.py and services/conversations.py: one turn of
-- the agent.
pub mod Protocol
pub mod Conversations
pub mod Newest
pub mod Windows
pub mod Turn
pub mod Rounds
pub mod Dispatchers
pub mod Steps
pub mod Stored
pub mod Contract
pub mod Application
pub mod Agent
