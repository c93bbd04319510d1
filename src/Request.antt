-- ===== src/Request.antt =====
-- The state of a request: react-app/src/models/RequestState.ts, and the hooks of hooks/graphql.ts
-- that compute one from Apollo's.
pub mod ServerError
pub mod Laws
use likedao.Common.{ℕ, Bool, true, false, Option, none, some, Thrown}

pub data RequestState {ℓ} (T : Type ℓ) : Type ℓ where
  initial loading : RequestState T
  loaded : (value : T) → RequestState T
  failed : (reason : Thrown) → RequestState T

-- the numbers of the enum RequestStateType
abbrev pub request_state_type {ℓ} : {T : Type ℓ} → RequestState T → ℕ
request_state_type initial = 0
request_state_type loading = 1
request_state_type (loaded value) = 2
request_state_type (failed reason) = 3

module _ {ℓ} {T : Type ℓ} where
  abbrev pub is_request_state_initial : RequestState T → Bool
  is_request_state_initial initial = true
  is_request_state_initial _ = false

  abbrev pub is_request_state_loading : RequestState T → Bool
  is_request_state_loading loading = true
  is_request_state_loading _ = false

  abbrev pub is_request_state_loaded : RequestState T → Bool
  is_request_state_loaded (loaded value) = true
  is_request_state_loaded _ = false

  abbrev pub is_request_state_error : RequestState T → Bool
  is_request_state_error (failed reason) = true
  is_request_state_error _ = false

unfoldable pub map_request_data {ℓ κ} :
    {T : Type ℓ} {U : Type κ} → RequestState T → (T → U) → RequestState U
map_request_data (loaded value) fmap = loaded (fmap value)
map_request_data initial fmap = initial
map_request_data loading fmap = loading
map_request_data (failed reason) fmap = failed reason

-- `networkStatus === NetworkStatus.refetch`, or any other status
pub data NetworkStatus : Type 0 where
  refetch other_status : NetworkStatus

-- what `useLazyQuery` reports
pub record ApolloResult (T : Type 0) : Type 0 where
  pub loading_flag : Bool
  pub error : Option Thrown
  pub result : Option T
  pub network_status : NetworkStatus

-- the tests after the one for a refetch, in order: data, error, loading
settled_state : {T : Type 0} → Option T → Option Thrown → Bool → RequestState T
settled_state (some value) error loading_flag = loaded value
settled_state none (some reason) loading_flag = failed reason
settled_state none none true = loading
settled_state none none false = initial

pub lazy_request_state : {T : Type 0} → ApolloResult T → RequestState T
unfolding settled_state
lazy_request_state r = elim r.network_status [
  | refetch ↦ loading
  | other_status ↦ settled_state r.result r.error r.loading_flag
]
