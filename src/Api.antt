-- ===== src/Api.antt =====
-- The API hooks of react-app/src/api over the chain's clients, one module for each file.
pub mod Cosmos
pub mod Bank
pub mod Paging
pub mod Staking
pub mod Distribution
pub mod Gov
pub mod Guards
pub mod Balances
pub mod Answers
pub mod Signing
pub mod Withdrawals
pub mod Params
pub mod Rates
