-- ===== src/Lib.antt =====
-- LikeDAO's web app, react-app/src: the logic of its APIs, providers and screens, in the parts that
-- follow. Paths are from the repository's root.
--
-- The parts and how they interact. The chain is read through cosmjs's query client and written
-- through the wallet's signing client; the API hooks (react-app/src/api) wrap both, the providers
-- (react-app/src/providers) keep the wallet's state and submit transactions, and the screens
-- (react-app/src/components) turn answers into request states.
-- - Common: names that all share. Results stand for settled promises; ℤ and the Boolean tests stand
--   over the native numbers.
-- - BigNumber: the package bignumber.js as an interface; BigNumber.Decimal is an instance, which the
--   tests run on. Amount: react-app/src/utils/coin.ts.
-- - Config: react-app/src/config/Config.ts. Message: react-app/src/models/cosmos.
-- - Chain: what cosmjs gives, as records of functions (QueryClient, WalletClient, Bech32), and the
--   Session that the hooks of one render hand to the API functions. A session's answers are those at
--   the moment of the call; each API function is a function of the session.
-- - Api: react-app/src/api but authAPI.ts and reactionAPI.ts. Api.Cosmos, Api.Bank, Api.Staking,
--   Api.Distribution and Api.Gov hold one function for each function of the hooks, under its name in
--   snake case (signSendTokenTx is sign_send_token_tx). Api.Paging is the loop over pages that three
--   functions of stakingAPI.ts repeat. Api.Rates has what is computed with
--   JavaScript's numbers, which are a parameter, and the figures of models/staking.ts. Api.Guards,
--   Api.Balances, Api.Answers, Api.Signing, Api.Withdrawals and Api.Params are theorems.
-- - Request: react-app/src/models/RequestState.ts, hooks/graphql.ts and models/error.ts.
-- - Reaction: react-app/src/api/reactionAPI.ts, ReactionModel.tsx and the toggle of
--   ProposalHeader.tsx; Apollo's cache is an interface.
-- - Wallet: react-app/src/providers/WalletProvider.tsx as a state machine. The state is the React
--   state and the calls that are under way; a step runs a handler up to its first `await` or settles
--   one call, and any call may settle next.
-- - Clients: the two wallets of react-app/src/clients. The connection through WalletConnect runs over
--   the connector's session and the local storage; Clients.Stored and Clients.Reconnect are theorems.
-- - Auth: react-app/src/api/authAPI.ts and providers/AuthProvider.tsx over the browser's `fetch`.
-- - Apollo: the sign-in that the link of react-app/src/providers/AppApolloProvider.tsx makes for an
--   unauthenticated operation, as a state machine; a step is an answer, the end of a sign-in or its
--   `finally`.
-- - Transaction: the submissions of react-app/src/providers/TransactionProvider.tsx, each as the
--   list of what it shows; Transaction.Screens has those of ProposalDetailScreen.tsx,
--   ValidatorDetailScreen.tsx and CreateProposalScreen.tsx. Transaction.Modals is the provider's own
--   state: its modals and the rewards that its effect loads, with the requests under way.
--   Transaction.Openers has the modals of the other two screens.
-- - Proposal, Portfolio, Stakes, SideBar, Page: ProposalDetailScreenAPI.ts, PortfolioScreenAPI.ts,
--   StakesTablePanelAPI.tsx, AppSideBarAPI.ts and PageController.tsx of react-app/src/components.
-- - ValidatorDetail: ValidatorDetailScreenAPI.tsx, models/staking.ts and `pubKeyToBech32`.
-- - Lists: the filters and orders of ProposalScreen, ValidatorScreen and ProposalHistory. Location:
--   the page, the tab and the order that these screens and the panels of votes and deposits keep in
--   the page's address, with the numbers that are printed into it and parsed of it.
-- - Form: react-app/src/hooks/useFormValidators.ts and the models of react-app/src/components/forms.
--   Form.ParseFloat is JavaScript's parseFloat, on exact decimals, with the bounds from which a
--   double is Infinity or 0. Form.Amounts and Form.Spending are theorems, the second together with
--   the guards of Api.
-- - Proposal.Actions: the button and the reactions of ProposalHeader.tsx and the handlers of
--   ProposalDetailScreen.tsx. Stakes.Sorting: the sorted rows, by the stable sort of Common.Sort.
--   Stakes.Figures: the rows with their two figures.
-- - Portfolio.Screen: the effects of PortfolioScreen.tsx and what it shows, for what its two fetches
--   come to. Portfolio.Ended and Portfolio.Shown are theorems.
-- - Examples: tests and concrete cases.
--
-- Bounds and fuel. Numbers are unbounded; a page number is printed by a division with a fuel
-- that its own size bounds, and the round trip of Location.Digits shows that this is enough.
-- The loop over pages takes the number of pages that it may ask for, and answers `none` beyond
-- it; a server with finitely many pages is served completely by any fuel that is at least their
-- number. The attempts of a connection through WalletConnect are two where each new session
-- comes with an account. `Promise.all` takes the leftmost of several rejections.
--
-- Not modelled. Markup, styles, translations, the texts of toasts, analytics and logging; the
-- query client; generated GraphQL code; floating-point arithmetic, which is a parameter; the Go
-- server in graphql-server; the indexer and the deployment.
pub mod Common
pub mod Reaction
pub mod BigNumber
pub mod Config
pub mod Message
pub mod Amount
pub mod Chain
pub mod Api
pub mod Request
pub mod Form
pub mod Location
pub mod Page
pub mod Wallet
pub mod Clients
pub mod SideBar
pub mod Auth
pub mod Apollo
pub mod Transaction
pub mod Proposal
pub mod Portfolio
mod Examples
pub mod Stakes
pub mod ValidatorDetail
pub mod Lists
