-- ===== src/Evm.antt =====
-- knight/src/evm: the contracts and the transactions that the bot handles.
pub mod Contracts
pub mod Transaction
pub mod Log
pub mod Receipt
pub mod Tests
