-- ===== src/Api/Answers.antt =====
-- What the APIs do with the answers of the chain and the wallet, errors included.
use likedao.Common.{
  ◌≡◌, refl, sym, ap, ◌≢◌, ◌↔◌, ◌⊎◌, inl, inr, Bool, true, false, Bool-cases, Option, none, some,
  String, Result, ok, err, error, arith, ◌==◌, ◌>>=◌, ◌>>◌, throw_if, not, Thrown, other,
  if◌then◌else◌,
}
use mathlib.Core.Path.{subst}
use likedao.Message.{Coin}
use likedao.Amount.{BigNumberCoin}
use likedao.Chain.{
  Bytes, DeliverTxResponse, Delegation, DelegationResponse, Session, Wallet, connecting, idle,
  connected, connected_address,
}
use likedao.Api.Cosmos.{broadcast_tx}
use likedao.Api.Staking.{includes, null_on, fetched_delegation, read_delegation, get_delegation}

-- `broadcast_tx` as a function of the wallet's status and the client's answer
broadcast_outcome : Wallet → Result DeliverTxResponse → Result DeliverTxResponse
unfolding connected_address
broadcast_outcome w answer = do
  connected_address w
  res ← answer
  throw_if (not (res.code == 0)) res.raw_log
  ok res

broadcast_outcome_iff :
    (w : Wallet) (answer : Result DeliverTxResponse) (res : DeliverTxResponse)
    → (broadcast_outcome w answer ≡ ok res)
      ↔ (((address : String) × (w ≡ connected address)) × (answer ≡ ok res) × (res.code ≡ 0))
unfolding broadcast_outcome
broadcast_outcome_iff connecting answer res = (λ h. cc, λ h. absurd (cc h.0.1))
broadcast_outcome_iff idle answer res = (λ h. cc, λ h. absurd (cc h.0.1))
broadcast_outcome_iff (connected a) (err e) res = (λ h. cc, λ h. cc)
broadcast_outcome_iff (connected a) (ok r) res =
    (λ h. ((a, refl), ground arith, ground arith), λ h. ground arith)

-- Broadcasting gives a response exactly when the wallet is connected, the client answers that
-- response, and its code is 0.
pub broadcast_tx_iff :
    (s : Session) (tx : Bytes) (res : DeliverTxResponse)
    → (broadcast_tx s tx ≡ ok res) ↔ (
        ((address : String) × (s.wallet ≡ connected address))
        × (s.signer.broadcast_tx tx ≡ ok res)
        × (res.code ≡ 0))
unfolding broadcast_tx broadcast_outcome
broadcast_tx_iff s tx res = broadcast_outcome_iff s.wallet (s.signer.broadcast_tx tx) res

handled_iff :
    {A : Type 0} (b : Bool) (e : Thrown)
    → ◌≡◌ {A = Result (Option A)} (if b then ok none else err e) (ok none) ↔ (b ≡ true)
handled_iff true e = (λ h. refl, λ h. refl)
handled_iff false e = (λ h. cc, λ h. cc)

-- an error that speaks of "NotFound"
abbrev pub IsNotFound : Thrown → Type 0
IsNotFound e = (message : String) × (e ≡ error message) × (includes message "NotFound" ≡ true)

abbrev pub IsIncomplete : DelegationResponse → Type 0
IsIncomplete r = (r.balance ≡ none) ⊎ (r.delegation ≡ none)

module _ (s : Session) where
  fetched_delegation-ne-none :
      (b : Option Coin) (d : Option Delegation)
      → null_on "NotFound" (fetched_delegation s b d) ≢ ok none
  unfolding fetched_delegation null_on
  fetched_delegation-ne-none none d h = cc
  fetched_delegation-ne-none (some b) none h = cc
  fetched_delegation-ne-none (some b) (some d) h = cc

  read_delegation-eq-none_iff :
      (answer : Result (Option DelegationResponse))
      → (null_on "NotFound" (answer >>= read_delegation s) ≡ ok none) ↔ (
          (answer ≡ ok none)
          ⊎ ((message : String) × (answer ≡ err (error message))
              × (includes message "NotFound" ≡ true)))
  unfolding read_delegation null_on
  read_delegation-eq-none_iff (ok none) = (λ h. inl refl, λ h. refl)
  read_delegation-eq-none_iff (ok (some r)) = (
    λ h. absurd (fetched_delegation-ne-none r.balance r.delegation h),
    elim [ inl h ↦ cc | inr h ↦ absurd (cc h.1) ],
  )
  read_delegation-eq-none_iff (err other) = (λ h. cc, elim [ inl h ↦ cc | inr h ↦ absurd (cc h.1) ])
  read_delegation-eq-none_iff (err (error m)) = (
    λ h. inr (m, refl, (handled_iff (includes m "NotFound") (error m)).0 h),
    elim [
      | inl h ↦ cc
      | inr h ↦
          let same : m ≡ h.0 = cc in
          (handled_iff (includes m "NotFound") (error m)).1
            (subst (λ (t : String). includes t "NotFound" ≡ true) (sym same) h.2)
    ],
  )

  not_handled :
      {A : Type 0} (b : Bool) (e e' : Thrown)
      → ◌≡◌ {A = Result (Option A)} (if b then ok none else err e) (err e')
        ↔ ((b ≡ false) × (e ≡ e'))
  not_handled true e e' = (λ h. absurd cc, λ h. absurd (cc h.0))
  not_handled false e e' = (λ h. (refl, cc), λ h. ap err h.1)

  fetched_delegation-eq-err_iff :
      (b : Option Coin) (d : Option Delegation) (e : Thrown)
      → (null_on "NotFound" (fetched_delegation s b d) ≡ err e)
        ↔ (((b ≡ none) ⊎ (d ≡ none)) × (e ≡ error "Failed to fetch delegation"))
  unfolding fetched_delegation null_on
  fetched_delegation-eq-err_iff none d e = (λ h. (inl refl, cc), λ h. ap err (sym h.1))
  fetched_delegation-eq-err_iff (some b) none e = (λ h. (inr refl, cc), λ h. ap err (sym h.1))
  fetched_delegation-eq-err_iff (some b) (some d) e =
      (λ h. absurd cc, λ h. elim h.0 [ inl x ↦ absurd cc | inr x ↦ absurd cc ])

  read_delegation-eq-err_iff :
      (answer : Result (Option DelegationResponse)) (e : Thrown)
      → (null_on "NotFound" (answer >>= read_delegation s) ≡ err e) ↔ (
          ((answer ≡ err e) × (¬ IsNotFound e))
          ⊎ ((r : DelegationResponse) × (answer ≡ ok (some r))
              × IsIncomplete r
              × (e ≡ error "Failed to fetch delegation")))
  unfolding read_delegation null_on
  read_delegation-eq-err_iff (ok none) e =
      (λ h. absurd cc, elim [ inl h ↦ absurd (cc h.0) | inr h ↦ absurd (cc h.1) ])
  read_delegation-eq-err_iff (ok (some r)) e =
      let (to, from) = fetched_delegation-eq-err_iff r.balance r.delegation e in
      (
        λ h. let (missing, message) = to h in inr (r, refl, missing, message),
        elim [
          | inl h ↦ absurd (cc h.0)
          | inr (q, same, missing, message) ↦
              let k : r ≡ q = cc same in from (subst IsIncomplete (sym k) missing, message)
        ],
      )
  read_delegation-eq-err_iff (err other) e = (
    λ h. let same : other ≡ e = cc in inl (ap err same, λ (m, k, x). absurd cc),
    elim [ inl h ↦ let same : other ≡ e = cc in ap err same | inr h ↦ absurd (cc h.1) ],
  )
  read_delegation-eq-err_iff (err (error m)) e =
      let (to, from) =
        not_handled {A = Delegation × BigNumberCoin s.numbers.BigNumber} (includes m "NotFound")
          (error m) e in
      (
        λ h.
            let (kept, same) = to h in
            inl (
              ap err same,
              λ (m', k, x).
                  let names : m' ≡ m = cc in
                  let found = subst (λ (t : String). includes t "NotFound" ≡ true) names x in
                  absurd cc,
            ),
        elim [
          | inl h ↦
              let same : error m ≡ e = cc in
              elim (Bool-cases (includes m "NotFound")) [
                | inl found ↦ absurd (h.1 (m, sym same, found))
                | inr kept ↦ from (kept, same)
              ]
          | inr h ↦ absurd (cc h.1)
        ],
      )

-- A delegation is reported as absent exactly when the chain answers none, or fails with an error
-- whose message speaks of "NotFound"; and it is rejected exactly when the chain fails with any other
-- error, which is passed on as it is, or when the answer lacks its balance or its delegation.
pub get_delegation-eq-none_iff :
    (s : Session) (delegator validator : String)
    → let answer = s.query.staking_delegation delegator validator in
      ((get_delegation s delegator validator ≡ ok none) ↔ (
        (answer ≡ ok none)
        ⊎ ((message : String) × (answer ≡ err (error message))
            × (includes message "NotFound" ≡ true))))
      × ((e : Thrown)
          → (get_delegation s delegator validator ≡ err e) ↔ (
              ((answer ≡ err e) × (¬ IsNotFound e))
              ⊎ ((r : DelegationResponse) × (answer ≡ ok (some r))
                  × IsIncomplete r
                  × (e ≡ error "Failed to fetch delegation"))))
unfolding get_delegation
get_delegation-eq-none_iff s delegator validator =
    let answer = s.query.staking_delegation delegator validator in
    (read_delegation-eq-none_iff s answer, read_delegation-eq-err_iff s answer)
