-- ===== src/Apollo.antt =====
-- The link of react-app/src/providers/AppApolloProvider.tsx that answers an unauthenticated
-- operation with a sign-in, as a state machine over the operations and the flag `isLoggingIn`.
-- What the server and the wallet answer, and in which order, is any.
pub mod Runs
use likedao.Common.{
  ℕ, suc, Bool, true, false, not, ◌&&◌, Option, none, some, List, [], ◌∷◌, ◌++◌, ◌≡◌, String,
  str_eq, if◌then◌else◌,
}
use likedao.Request.ServerError.{ApolloError}

-- `error.extensions.code === API_UNAUTHENTICATED` for the first error; the extensions are taken to
-- be there
abbrev pub is_unauthenticated : List (Option String) → Bool
is_unauthenticated [] = false
is_unauthenticated (none ∷ _) = false
is_unauthenticated (some code ∷ _) = str_eq code "UNAUTHENTICATED"

-- whether the handler starts a sign-in
unfoldable pub starts_sign_in : Bool → ApolloError → Bool
starts_sign_in is_logging_in e = not is_logging_in && is_unauthenticated e.graphql_error_codes

-- Where an operation stands. `forward` sends it to the links after this one, whose answer goes to
-- the observer and not through this handler again.
pub data Operation : Type 0 where
  sent signing_in sent_again sign_in_failed : Operation
  delivered : ApolloError → Operation

-- `clearing` counts the sign-ins that have settled and whose `finally` has not run yet
pub record LinkState : Type 0 where
  pub is_logging_in : Bool
  pub clearing : ℕ
  pub operations : List Operation

abbrev pub initial_link : LinkState
initial_link = record { is_logging_in = false; clearing = 0; operations = [] }

unfoldable pub issue : LinkState → LinkState
issue s = record s { operations = s.operations ++ sent ∷ [] }

module _ (s : LinkState) (before rest : List Operation) where
  -- the answer of an operation that is sent for the first time
  unfoldable pub on_error : ApolloError → LinkState
  unfolding starts_sign_in
  on_error e =
      if starts_sign_in s.is_logging_in e
      then record s { is_logging_in = true; operations = before ++ signing_in ∷ rest }
      else record s { operations = before ++ delivered e ∷ rest }

  -- the `then` block, and the `catch` block
  unfoldable pub after_sign_in : LinkState
  after_sign_in = record s { operations = before ++ sent_again ∷ rest; clearing = suc s.clearing }

  unfoldable pub after_failed_sign_in : LinkState
  after_failed_sign_in = record s {
    operations = before ++ sign_in_failed ∷ rest;
    clearing = suc s.clearing;
  }

  unfoldable pub deliver : ApolloError → LinkState
  deliver e = record s { operations = before ++ delivered e ∷ rest }

-- the `finally` block of one of the sign-ins
unfoldable pub clear : LinkState → ℕ → LinkState
clear s others = record s { is_logging_in = false; clearing = others }

-- One step of what is under way.
pub data Step : LinkState → LinkState → Type 0 where
  answers :
      {s : LinkState} (before rest : List Operation) (e : ApolloError)
      → s.operations ≡ before ++ sent ∷ rest
      → Step s (on_error s before rest e)
  signs_in :
      {s : LinkState} (before rest : List Operation)
      → s.operations ≡ before ++ signing_in ∷ rest
      → Step s (after_sign_in s before rest)
  fails_to_sign_in :
      {s : LinkState} (before rest : List Operation)
      → s.operations ≡ before ++ signing_in ∷ rest
      → Step s (after_failed_sign_in s before rest)
  clears : {s : LinkState} {others : ℕ} → s.clearing ≡ suc others → Step s (clear s others)
  answers_again :
      {s : LinkState} (before rest : List Operation) (e : ApolloError)
      → s.operations ≡ before ++ sent_again ∷ rest
      → Step s (deliver s before rest e)

-- A run that has issued `n` operations and taken `m` steps.
pub data Run : ℕ → ℕ → LinkState → Type 0 where
  begins : Run 0 0 initial_link
  issues : {n m : ℕ} {s : LinkState} → Run n m s → Run (suc n) m (issue s)
  steps : {n m : ℕ} {s t : LinkState} → Run n m s → Step s t → Run n (suc m) t
