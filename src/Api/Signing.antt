-- ===== src/Api/Signing.antt =====
-- What the signing functions sign, and for how much gas.
use mathlib.Core.Option
use likedao.Common.{
  ℕ, ◌≡◌, refl, ◌↔◌, false, Option, some, List, [], ◌∷◌, String, Result, ok, err, ◌>>=◌, >>=-eq-ok,
  Thrown, sym, none, ◌+◌, ◌*◌, ◌≤◌, ◌<◌, arith, throw_if, or_throw, throw_if-eq-ok, or_throw-eq-ok,
  or_else,
}
use mathlib.Core.Path.{subst}
use likedao.Message.{Coin, EncodeObject, new_undelegate_message}
use likedao.Chain.{Bytes, DelegationResponse, Session, connected, connected_address}
use likedao.Api.Cosmos.{gas_limit, sign_tx}
use likedao.Api.Bank.{to_minimal, minimal_coin}
use likedao.Api.Staking.{sign_undelegate_token_tx}

-- the nearest integer to 1.3 times the gas used, the greater one from a half on
pub record IsGasLimit (used limit : ℕ) : Type 0 where
  pub not_above : 10 * limit ≤ 13 * used + 5
  pub not_below : 13 * used + 5 < 10 * limit + 10

-- the memo, which is empty where none is given
abbrev pub IsMemo : Option String → String → Type 0
IsMemo none text = text ≡ ""
IsMemo (some memo) text = text ≡ memo

gas_limit-IsGasLimit : (used : ℕ) → IsGasLimit used (gas_limit used)
gas_limit-IsGasLimit used = record { not_above = omega arith; not_below = omega arith }

IsGasLimit-unique : (used limit : ℕ) → IsGasLimit used limit → gas_limit used ≡ limit
IsGasLimit-unique used limit h = omega (arith, h.not_above, h.not_below)

or_else-IsMemo : (memo : Option String) → IsMemo memo (or_else memo "")
or_else-IsMemo none = refl
or_else-IsMemo (some memo) = refl

IsMemo-unique : (memo : Option String) (text : String) → IsMemo memo text → or_else memo "" ≡ text
IsMemo-unique none text h = sym h
IsMemo-unique (some memo) text h = sym h

module _ (s : Session) (address : String) (is_connected : s.wallet ≡ connected address) where
  open s.numbers use {of_string, is_less_than}

  pub reached : connected_address s.wallet ≡ ok address
  unfolding connected_address
  reached = rw is_connected

  -- what comes of signing messages: at the end, they are signed with the fee for `limit` gas, which
  -- is 1.3 times the simulated gas, to the nearest integer and from a half upwards
  pub data SignOutcome (messages : List EncodeObject) (memo : Option String)
      : Result Bytes → Type 0 where
    not_simulated :
        {e : Thrown}
        → s.signer.simulate address messages memo ≡ err e
        → SignOutcome messages memo (err e)
    refused :
        {e : Thrown} (used limit : ℕ) (text : String)
        → s.signer.simulate address messages memo ≡ ok used
        → IsGasLimit used limit
        → IsMemo memo text
        → s.signer.sign address messages (s.signer.calculate_fee limit s.chain.gas_price) text
          ≡ err e
        → SignOutcome messages memo (err e)
    signs :
        {raw : s.signer.TxRaw} (used limit : ℕ) (text : String)
        → s.signer.simulate address messages memo ≡ ok used
        → IsGasLimit used limit
        → IsMemo memo text
        → s.signer.sign address messages (s.signer.calculate_fee limit s.chain.gas_price) text
          ≡ ok raw
        → SignOutcome messages memo (ok (s.signer.encode_tx raw))

  sign_tx_sound :
      (messages : List EncodeObject) (memo : Option String)
      → SignOutcome messages memo (sign_tx s messages memo)
  unfolding sign_tx
  sign_tx_sound messages memo =
      rw reached (after_simulation (s.signer.simulate address messages memo) refl)
    where
      after_signing :
          (used : ℕ)
          → s.signer.simulate address messages memo ≡ ok used
          → (answer : Result s.signer.TxRaw)
          → s.signer.sign address messages
              (s.signer.calculate_fee (gas_limit used) s.chain.gas_price)
              (or_else memo "")
            ≡ answer
          → SignOutcome messages memo (answer >>= λ raw. ok (s.signer.encode_tx raw))
      after_signing used simulated (err e) signed =
          refused used (gas_limit used) (or_else memo "") simulated (gas_limit-IsGasLimit used)
            (or_else-IsMemo memo) signed
      after_signing used simulated (ok raw) signed =
          signs used (gas_limit used) (or_else memo "") simulated (gas_limit-IsGasLimit used)
            (or_else-IsMemo memo) signed

      after_simulation :
          (answer : Result ℕ)
          → s.signer.simulate address messages memo ≡ answer
          → SignOutcome messages memo (
              answer >>= λ used.
              s.signer.sign address messages
                (s.signer.calculate_fee (gas_limit used) s.chain.gas_price)
                (or_else memo "")
              >>= λ raw. ok (s.signer.encode_tx raw))
      after_simulation (err e) simulated = not_simulated simulated
      after_simulation (ok used) simulated = after_signing used simulated _ refl

  sign_tx_complete :
      (messages : List EncodeObject) (memo : Option String) {r : Result Bytes}
      → SignOutcome messages memo r
      → sign_tx s messages memo ≡ r
  unfolding sign_tx
  sign_tx_complete messages memo (not_simulated simulated) = simp (reached, simulated)
  sign_tx_complete messages memo (refused used limit text simulated is_limit is_memo signed) =
      let l : gas_limit used ≡ limit = IsGasLimit-unique used limit is_limit in
      let m : or_else memo "" ≡ text = IsMemo-unique memo text is_memo in
      simp (reached, simulated, l, m, signed)
  sign_tx_complete messages memo (signs used limit text simulated is_limit is_memo signed) =
      let l : gas_limit used ≡ limit = IsGasLimit-unique used limit is_limit in
      let m : or_else memo "" ≡ text = IsMemo-unique memo text is_memo in
      simp (reached, simulated, l, m, signed)

  -- A connected wallet comes to a result exactly in these cases: the error of the simulation; or,
  -- where the gas could be simulated, what the wallet answers to signing the same messages for its
  -- own address, with the memo or an empty one, for the fee of 1.3 times that gas to the nearest
  -- integer: its error, or the encoded transaction.
  pub sign_tx_iff :
      (messages : List EncodeObject) (memo : Option String) (r : Result Bytes)
      → (sign_tx s messages memo ≡ r) ↔ SignOutcome messages memo r
  sign_tx_iff messages memo r = (
    λ h. subst (SignOutcome messages memo) h (sign_tx_sound messages memo),
    sign_tx_complete messages memo,
  )

  -- what is needed to undelegate
  pub record Undelegates (validator amount : String) (memo : Option String) (tx : Bytes)
      : Type 0 where
    pub response : Option DelegationResponse
    pub balance : Coin
    pub answered : s.query.staking_delegation address validator ≡ ok response
    pub delegated : Option.bind response (λ r. r.balance) ≡ some balance
    pub covered : is_less_than (of_string balance.amount) (to_minimal s (of_string amount)) ≡ false
    pub signed :
        sign_tx s
          (new_undelegate_message address validator (minimal_coin s (of_string amount)) ∷ [])
          memo
        ≡ ok tx

  undelegate_sound :
      (validator amount : String) (memo : Option String) (tx : Bytes)
      → sign_undelegate_token_tx s validator amount memo ≡ ok tx
      → Undelegates validator amount memo tx
  unfolding sign_undelegate_token_tx
  undelegate_sound validator amount memo tx h =
      let h = simp reached at h in
      let (response, answered, h) = >>=-eq-ok (s.query.staking_delegation address validator) _ h in
      let (balance, found, h) =
        >>=-eq-ok (or_throw (Option.bind response (λ r. r.balance)) "No delegation") _ h in
      let is_above = is_less_than (of_string balance.amount) (to_minimal s (of_string amount)) in
      let (u, passed, h) =
        >>=-eq-ok (throw_if is_above "Withdraw amount is more than delegated amount") _ h in
      record {
        response = response;
        balance = balance;
        answered = answered;
        delegated = or_throw-eq-ok (Option.bind response (λ r. r.balance)) _ found;
        covered = throw_if-eq-ok is_above _ passed;
        signed = h;
      }

  undelegate_complete :
      (validator amount : String) (memo : Option String) (tx : Bytes)
      → Undelegates validator amount memo tx
      → sign_undelegate_token_tx s validator amount memo ≡ ok tx
  unfolding sign_undelegate_token_tx
  undelegate_complete validator amount memo tx a =
      simp (reached, a.answered, a.delegated, a.covered, a.signed)

  -- A connected wallet signs an undelegation exactly when the chain answers a delegation with a
  -- balance that covers the amount, and it signs the one message that takes the amount from it.
  pub sign_undelegate_token_tx_iff :
      (validator amount : String) (memo : Option String) (tx : Bytes)
      → (sign_undelegate_token_tx s validator amount memo ≡ ok tx)
        ↔ Undelegates validator amount memo tx
  sign_undelegate_token_tx_iff validator amount memo tx =
      (undelegate_sound validator amount memo tx, undelegate_complete validator amount memo tx)
