-- ===== src/Telegram.antt =====
-- src/ah_there_it_is/telegram/: the polling loop and its durable offset.
pub mod Polling
pub mod Delivery
pub mod Order
pub mod Acknowledged
