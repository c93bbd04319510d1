-- ===== src/Request/ServerError.antt =====
-- react-app/src/models/error.ts: GraphQL errors as typed errors.
use likedao.Common.{
  ◌≡◌, refl, sym, ◌∙◌, ◌↔◌, ◌≢◌, Bool, true, false, Option, none, some, List, [], ◌∷◌, String,
  str_eq, str_eq_iff, arith, if◌then◌else◌,
}
use mathlib.Core.Path.{subst}

pub data ErrorType : Type 0 where
  unknown network internal validation not_found query mutation unauthenticated : ErrorType

-- what is read of an Apollo error: whether `networkError` is set, and each GraphQL error's
-- `extensions.code`
pub record ApolloError : Type 0 where
  pub has_network_error : Bool
  pub graphql_error_codes : List (Option String)

-- `originalError` is the whole error, or its first GraphQL error
pub data OriginalError : Type 0 where
  whole first : OriginalError

pub record ServerError : Type 0 where
  pub type : ErrorType
  pub original_error : OriginalError

abbrev pub server_error : ErrorType → OriginalError → ServerError
server_error t o = record { type = t; original_error = o }

-- the `switch`
of_code : String → ServerError
of_code code =
    if str_eq code "INTERNAL_SERVER_ERROR"
    then server_error internal first
    else if str_eq code "NOT_FOUND"
    then server_error not_found first
    else if str_eq code "VALIDATION_FAILURE"
    then server_error validation first
    else if str_eq code "QUERY_ERROR"
    then server_error query first
    else if str_eq code "MUTATION_ERROR"
    then server_error mutation first
    else if str_eq code "UNAUTHENTICATED"
    then server_error unauthenticated first
    else if str_eq code "UNKNOWN"
    then server_error unknown first
    else server_error unknown whole

-- an empty code is no code
of_codes : List (Option String) → ServerError
of_codes [] = server_error unknown whole
of_codes (none ∷ _) = server_error unknown whole
of_codes (some code ∷ _) = if str_eq code "" then server_error unknown whole else of_code code

pub parse_graphql_request_error : ApolloError → ServerError
unfolding of_codes of_code
parse_graphql_request_error e =
    if e.has_network_error then server_error network whole else of_codes e.graphql_error_codes

-- the code that the server gives to each type that has one
abbrev pub api_code : ErrorType → Option String
api_code internal = some "INTERNAL_SERVER_ERROR"
api_code not_found = some "NOT_FOUND"
api_code validation = some "VALIDATION_FAILURE"
api_code query = some "QUERY_ERROR"
api_code mutation = some "MUTATION_ERROR"
api_code unauthenticated = some "UNAUTHENTICATED"
api_code unknown = some "UNKNOWN"
api_code network = none

abbrev pub first_code : List (Option String) → Option String
first_code [] = none
first_code (c ∷ _) = c

of_code-api_code :
    (t : ErrorType) (code : String) → of_code code ≡ server_error t first → api_code t ≡ some code
unfolding of_code
of_code-api_code t code h = ground (
  arith,
  str_eq_iff code "INTERNAL_SERVER_ERROR",
  str_eq_iff code "NOT_FOUND",
  str_eq_iff code "VALIDATION_FAILURE",
  str_eq_iff code "QUERY_ERROR",
  str_eq_iff code "MUTATION_ERROR",
  str_eq_iff code "UNAUTHENTICATED",
  str_eq_iff code "UNKNOWN",
)

-- each code comes back as its type
abbrev IsRead : ErrorType → Option String → Type 0
IsRead t none = Unit
IsRead t (some code) = (of_code code ≡ server_error t first) × (str_eq code "" ≡ false)

api_code-IsRead : (t : ErrorType) → IsRead t (api_code t)
unfolding of_code
api_code-IsRead unknown = (refl, refl)
api_code-IsRead network = tt
api_code-IsRead internal = (refl, refl)
api_code-IsRead validation = (refl, refl)
api_code-IsRead not_found = (refl, refl)
api_code-IsRead query = (refl, refl)
api_code-IsRead mutation = (refl, refl)
api_code-IsRead unauthenticated = (refl, refl)

of_codes_iff :
    (t : ErrorType) (codes : List (Option String))
    → (of_codes codes ≡ server_error t first)
      ↔ ((code : String) × (first_code codes ≡ some code) × (api_code t ≡ some code))
unfolding of_codes
of_codes_iff t [] = (λ h. cc, λ h. cc)
of_codes_iff t (none ∷ _) = (λ h. cc, λ h. cc)
of_codes_iff t (some code ∷ _) = (
  λ h. (code, refl, of_code-api_code t code (ground arith)),
  λ (c, same, is_code).
      let r : IsRead t (some code) = subst (IsRead t) (is_code ∙ sym same) (api_code-IsRead t) in
      ground arith,
)

of_code-ne-network : (code : String) → (of_code code).type ≢ network
unfolding of_code
of_code-ne-network code h = ground arith

of_codes-ne-network : (codes : List (Option String)) → (of_codes codes).type ≢ network
unfolding of_codes
of_codes-ne-network [] h = cc
of_codes-ne-network (none ∷ _) h = cc
of_codes-ne-network (some code ∷ _) h = ground (arith, of_code-ne-network code)

-- the same over the two fields
typed_iff :
    (has_network_error : Bool) (codes : List (Option String)) (t : ErrorType)
    → let e : ServerError =
        if has_network_error then server_error network whole else of_codes codes in
      ((e ≡ server_error t first) ↔ (
        (has_network_error ≡ false)
        × ((code : String) × (first_code codes ≡ some code) × (api_code t ≡ some code))))
      × ((e.type ≡ network) ↔ (has_network_error ≡ true))
typed_iff true codes t = ((λ h. cc, λ h. absurd (cc h.0)), (λ h. refl, λ h. refl))
typed_iff false codes t = (
  (λ h. (refl, (of_codes_iff t codes).0 h), λ h. (of_codes_iff t codes).1 h.1),
  (λ h. absurd (of_codes-ne-network codes h), λ h. cc),
)

-- A request error is typed by the code of its first GraphQL error exactly when there is no network
-- error and that code is the type's; and it is a network error exactly when Apollo reports one.
pub parse_graphql_request_error_iff :
    (e : ApolloError) (t : ErrorType)
    → ((parse_graphql_request_error e ≡ server_error t first) ↔ (
        (e.has_network_error ≡ false)
        × ((code : String) × (first_code e.graphql_error_codes ≡ some code)
            × (api_code t ≡ some code))))
      × (((parse_graphql_request_error e).type ≡ network) ↔ (e.has_network_error ≡ true))
unfolding parse_graphql_request_error
parse_graphql_request_error_iff e t = typed_iff e.has_network_error e.graphql_error_codes t
