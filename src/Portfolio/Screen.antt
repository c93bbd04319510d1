-- ===== src/Portfolio/Screen.antt =====
-- react-app/src/components/PortfolioScreen/PortfolioScreen.tsx: the address of the page, what its
-- effects ask for and do, and what it shows of the three requests.
use mathlib.Core.Option
use likedao.Common.{
  ℕ, Bool, true, false, not, ◌&&◌, Option, none, some, List, [], ◌∷◌, ◌++◌, String, str_eq, error,
  other, Result, if◌then◌else◌,
}
use likedao.Chain.{Session, Wallet, connecting, idle, connected}
use likedao.Request.{RequestState, initial, loading, loaded, failed, is_request_state_loading}
use likedao.Portfolio.{Portfolio, fetch_portfolio}
use likedao.Stakes.{StakedValidatorInfo, stakes_states}
use likedao.Location.{SearchParams, ListRequest, history_fetch}

pub data ScreenEffect : Type 0 where
  connect_wallet_modal_opened : ScreenEffect
  navigated error_toast : String → ScreenEffect

pub data PortfolioRequest : Type 0 where
  portfolio_asked stakes_asked : String → PortfolioRequest
  history_asked : String → ListRequest String → PortfolioRequest

-- whether an address is there; the empty one counts as none
abbrev pub is_set : Option String → Bool
is_set none = false
is_set (some address) = not (str_eq address "")

abbrev pub wallet_address : Wallet → Option String
wallet_address connecting = none
wallet_address idle = none
wallet_address (connected address) = some address

abbrev pub is_idle : Wallet → Bool
is_idle connecting = false
is_idle idle = true
is_idle (connected address) = false

unfoldable pub page_address : Option String → Wallet → Option String
page_address url wallet = if is_set url then url else wallet_address wallet

unfoldable pub is_your_portfolio : Option String → Bool
is_your_portfolio url = not (is_set url)

-- the two effects that fetch
unfoldable pub requests_of : Option String → SearchParams → List PortfolioRequest
requests_of none params = []
requests_of (some address) params =
    if str_eq address ""
    then []
    else portfolio_asked address
      ∷ stakes_asked address
      ∷ history_asked address (history_fetch params)
      ∷ []

module _ {A : Type 0} where
  -- a thrown value that is no Error is taken to have another message
  abbrev pub failure_effects : String → RequestState A → List ScreenEffect
  failure_effects key initial = []
  failure_effects key loading = []
  failure_effects key (loaded value) = []
  failure_effects key (failed (error message)) =
      if str_eq message "Invalid address"
      then navigated "/invalid-address" ∷ []
      else error_toast key ∷ []
  failure_effects key (failed other) = error_toast key ∷ []

  abbrev pub history_effects : RequestState A → List ScreenEffect
  history_effects initial = []
  history_effects loading = []
  history_effects (loaded value) = []
  history_effects (failed reason) =
      error_toast "PortfolioScreen.proposalHistory.requestState.error" ∷ []

  abbrev pub data_of : RequestState A → Option A
  data_of initial = none
  data_of loading = none
  data_of (loaded value) = some value
  data_of (failed reason) = none

  -- the state after those that a fetch sets
  abbrev pub state_after : RequestState A → List (RequestState A) → RequestState A
  state_after state [] = state
  state_after state (next ∷ states) = state_after next states

module _ {P R H : Type 0} where
  unfoldable pub effects_of :
      Wallet → Option String → RequestState P → RequestState R → RequestState H → List ScreenEffect
  effects_of wallet address portfolio stakes history =
      if is_idle wallet && not (is_set address)
      then connect_wallet_modal_opened ∷ []
      else failure_effects "PortfolioScreen.portfolio.requestState.error" portfolio
        ++ failure_effects "PortfolioScreen.stakes.requestState.error" stakes
        ++ history_effects history

-- `a` where `b` is there
abbrev pub where_loaded : {A B : Type 0} → Option A → Option B → Option A
where_loaded a none = none
where_loaded a (some b) = a

-- a spinner stands where the panel or the history is not there
pub record PortfolioView (P R H : Type 0) : Type 0 where
  pub panel : Option (P × Bool)
  pub is_loading : Bool
  pub stakes : Option R
  pub history : Option H

module _ {P R H : Type 0} where
  unfoldable pub view_of :
      Option String → RequestState P → RequestState R → RequestState H → PortfolioView P R H
  unfolding is_your_portfolio
  view_of url portfolio stakes history = record {
    panel =
        where_loaded (Option.map (λ p. (p, is_your_portfolio url)) (data_of portfolio))
          (data_of stakes);
    is_loading = is_request_state_loading stakes;
    stakes = data_of stakes;
    history = where_loaded (where_loaded (data_of history) (data_of portfolio)) (data_of stakes);
  }

-- the page once its fetches have ended
pub record PortfolioPage (P R H : Type 0) : Type 0 where
  pub effects : List ScreenEffect
  pub view : PortfolioView P R H

module _ {P R H : Type 0} where
  unfoldable pub page_after :
      Option String
      → Wallet
      → RequestState P
      → RequestState R
      → RequestState H
      → PortfolioPage P R H
  unfolding effects_of view_of page_address
  page_after url wallet portfolio stakes history = record {
    effects = effects_of wallet (page_address url wallet) portfolio stakes history;
    view = view_of url portfolio stakes history;
  }

module _ (s : Session) {M H : Type 0} (provisions : Result M) (fuel : ℕ)
    (history : RequestState H) where
  open s.numbers use {BigNumber}

  -- the page for an address that is there
  unfoldable pub page_for :
      Option String
      → String
      → Option (PortfolioPage (Portfolio BigNumber) (List (StakedValidatorInfo BigNumber)) H)
  page_for url address = Option.bind (fetch_portfolio s fuel (some address)) (λ portfolios.
      Option.map
        (λ stakes.
          page_after url s.wallet (state_after initial portfolios) (state_after initial stakes)
            history)
        (stakes_states s provisions fuel (some address)))

  unfoldable pub fetched_page :
      Option String
      → Option String
      → Option (PortfolioPage (Portfolio BigNumber) (List (StakedValidatorInfo BigNumber)) H)
  unfolding page_for
  fetched_page url none = some (page_after url s.wallet initial initial history)
  fetched_page url (some address) = elim (str_eq address "") [
    | true ↦ some (page_after url s.wallet initial initial history)
    | false ↦ page_for url address
  ]

  unfoldable pub portfolio_page :
      Option String
      → Option (PortfolioPage (Portfolio BigNumber) (List (StakedValidatorInfo BigNumber)) H)
  unfolding fetched_page page_address
  portfolio_page url = fetched_page url (page_address url s.wallet)
