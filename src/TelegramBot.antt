-- ===== src/TelegramBot.antt =====
-- tgbot.py: the Telegram bot. The texts of its answers, and what the management script does, are
-- left out.
pub mod Rules
pub mod Names
pub mod Session
pub mod Disk
pub mod Input
pub mod Messages
pub mod Callbacks
pub mod Machine
pub mod Firewall
pub mod Gfwlist
mod Tests
