-- ===== src/Examples.antt =====
-- Tests of the definitions, and one concrete case of each theorem that has hypotheses.
mod Fixtures
mod Reactions
mod Apis
mod Wallets
mod Screens
mod Submissions
mod Validators
mod Requests
mod Params
mod Forms
mod Locations
mod Buttons
mod Sorted
mod Portfolios
mod Links
mod Connections
mod Modals
mod Figures
