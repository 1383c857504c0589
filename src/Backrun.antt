-- ===== src/Backrun.antt =====
-- knight/src/encoder and knight/src/backrun: the bot's own transaction.
pub mod Encoder
pub mod TxComposer
mod Tests
