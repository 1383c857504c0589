-- ===== src/Utils.antt =====
-- knight/src/utils: the numeric routines of the bot.
pub mod Sqrt
pub mod Fields
pub mod Hex
mod Tests
