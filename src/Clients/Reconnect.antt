-- ===== src/Clients/Reconnect.antt =====
-- A connection through WalletConnect ends, and can be made again from the storage.
use likedao.Common.{
  ℕ, suc, ◌≡◌, ◌≢◌, refl, sym, ap, ◌∙◌, false, ◌||◌, none, some, List, String, str_eq, str_eq_iff,
  Result, ok, err, >>=-eq-ok, throw_if, Result-cases, Option-cases, Thrown, inl, inr, arith,
}
use mathlib.Core.Path.{subst}
use likedao.Clients.Stored.{
  asked, in_new_session, in_session, opened_connector, stored_before, unanswered, unopened,
}
use likedao.Clients.{
  HexAccount, Connector, WalletConnectLib, AccountData, get_wallet_connect_peer_store_key, set_item,
  finish, asked_account, stored_account, account_of, wallet_of, connect,
}

module _ (lib : WalletConnectLib) (prefix : String) where
  -- one attempt connects the same wallet again where the chain's endpoint answers, and ends with the
  -- endpoint's error otherwise; either way it leaves the session and the storage
  abbrev pub IsRepeated : AccountData → Connector → Type 0
  IsRepeated w t =
      (m : ℕ)
      → (lib.connect_with_signer m ≡ ok tt → connect lib prefix 1 m t ≡ some (ok w, t))
        × ((e : Thrown)
            → lib.connect_with_signer m ≡ err e
            → connect lib prefix 1 m t ≡ some (err e, t))

  pub Repeats : Result AccountData → Connector → Type 0
  Repeats (err e) t = Unit
  Repeats (ok w) t = IsRepeated w t

module _ (lib : WalletConnectLib) (prefix : String)
    (reads : (k : ℕ) (a : HexAccount)
      → lib.get_accounts k ≡ ok (some a)
      → (lib.parse (lib.stringify (some a)) ≡ ok (some a))
        × (str_eq (lib.stringify (some a)) "" ≡ false)) where
  stored_now :
      (n : ℕ) (peer_id : String) (a : HexAccount) (items : List (String × String))
      → lib.get_accounts n ≡ ok (some a)
      → stored_account lib prefix peer_id (record {
        session = some peer_id;
        storage =
            set_item (get_wallet_connect_peer_store_key peer_id) (lib.stringify (some a)) items;
      })
        ≡ ok (some a)
  unfolding stored_account
  stored_now n peer_id a items answered =
      let key = get_wallet_connect_peer_store_key peer_id in
      ground (arith, (str_eq_iff key key).1 refl, (reads n a answered).0, (reads n a answered).1)

  asked_before :
      (n m : ℕ) (c t : Connector) (a : HexAccount)
      → asked_account lib prefix n c ≡ (ok (some a), t)
      → account_of lib prefix m t ≡ (ok (some a), t)
  asked_before n m c t a h = elim (Result-cases (lib.open_session n)) [
    | inr (e, failed) ↦
        let h = ap (λ x. x.0) (sym (unopened lib prefix n c e failed) ∙ h) in absurd cc
    | inl (peer_id, opened) ↦ elim (Result-cases (lib.get_accounts n)) [
      | inr (e, failed) ↦
          let h = ap (λ x. x.0) (sym (unanswered lib prefix n c peer_id e opened failed) ∙ h) in
          absurd cc
      | inl (account, answered) ↦
          let h = sym (asked lib prefix n c peer_id account opened answered) ∙ h in
          let is_found : ok account ≡ ok (some a) = ap (λ x. x.0) h in
          let is_stored = ap (λ x. x.1) h in
          let same : some a ≡ account = cc in
          let becomes = ap (opened_connector lib prefix peer_id c) same ∙ is_stored in
          subst (λ u. account_of lib prefix m u ≡ (ok (some a), u)) becomes
            (stored_before lib prefix m peer_id (opened_connector lib prefix peer_id c (some a)) a
              refl (stored_now n peer_id a c.storage (answered ∙ ap ok (sym same))))
    ]
  ]

  found_before :
      (n m : ℕ) (c t : Connector) (a : HexAccount)
      → account_of lib prefix n c ≡ (ok (some a), t)
      → account_of lib prefix m t ≡ (ok (some a), t)
  found_before n m c t a h = elim (Option-cases c.session) [
    | inl ended ↦ asked_before n m c t a (sym (in_new_session lib prefix n c ended) ∙ h)
    | inr (peer_id, live) ↦
        let h = sym (in_session lib prefix n c peer_id live) ∙ h in
        let stored : stored_account lib prefix peer_id c ≡ ok (some a) = ap (λ x. x.0) h in
        subst (λ u. account_of lib prefix m u ≡ (ok (some a), u)) (ap (λ x. x.1) h)
          (stored_before lib prefix m peer_id c a live stored)
  ]

  Repeats-of :
      (r : Result AccountData) (t : Connector)
      → ((w : AccountData) → r ≡ ok w → IsRepeated lib prefix w t)
      → Repeats lib prefix r t
  unfolding Repeats
  Repeats-of (err e) t h = tt
  Repeats-of (ok w) t h = h w refl

  -- an account that gave a wallet once gives it again, where the endpoint answers
  wallet_again :
      (n m : ℕ) (a : HexAccount) (w : AccountData)
      → wallet_of lib prefix n a ≡ ok w
      → (lib.connect_with_signer m ≡ ok tt → wallet_of lib prefix m a ≡ ok w)
        × ((e : Thrown) → lib.connect_with_signer m ≡ err e → wallet_of lib prefix m a ≡ err e)
  unfolding wallet_of
  wallet_again n m a w h =
      let missing = str_eq a.address "" || str_eq a.algo "" || str_eq a.pub_key "" in
      let (u, complete, h) =
        >>=-eq-ok (throw_if missing "Failed to connect to WalletConnect") _ h in
      let (address, encoded, h) = >>=-eq-ok (lib.encode prefix a.address) _ h in
      let (v, reached, h) = >>=-eq-ok (lib.connect_with_signer n) _ h in
      (
        λ again. simp (complete, encoded, again) h,
        λ e failed. simp (complete, encoded, failed) refl,
      )

  Repeats-err : (e : Thrown) (t : Connector) → Repeats lib prefix (err e) t
  unfolding Repeats
  Repeats-err e t = tt

  connect-found :
      (fuel n : ℕ) (c t : Connector) (a : HexAccount)
      → account_of lib prefix n c ≡ (ok (some a), t)
      → connect lib prefix (suc fuel) n c ≡ some (wallet_of lib prefix n a, t)
  unfolding connect finish
  connect-found fuel n c t a h = simp h

  -- an attempt that comes to an account or to a rejection ends the connection
  abbrev Ends : ℕ → ℕ → Connector → Type 0
  Ends fuel n c =
      (r : Result AccountData) × (t : Connector) × (connect lib prefix fuel n c ≡ some (r, t))
      × Repeats lib prefix r t

  Ends-found :
      (fuel n : ℕ) (c t : Connector) (a : HexAccount)
      → account_of lib prefix n c ≡ (ok (some a), t)
      → Ends (suc fuel) n c
  Ends-found fuel n c t a h = (
    wallet_of lib prefix n a,
    t,
    connect-found fuel n c t a h,
    Repeats-of _ t (λ w gave m.
        let (same, fails) = wallet_again n m a w gave in
        let found = connect-found 0 m t t a (found_before n m c t a h) in
        (
          λ again. found ∙ ap (λ r. some (r, t)) (same again),
          λ e failed. found ∙ ap (λ r. some (r, t)) (fails e failed),
        )),
  )

  Ends-failed :
      (fuel n : ℕ) (c t : Connector) (e : Thrown)
      → account_of lib prefix n c ≡ (err e, t)
      → Ends (suc fuel) n c
  unfolding connect finish Repeats
  Ends-failed fuel n c t e h = (err e, t, simp h, tt)

  -- a new session comes to an account or to a rejection, where it never lacks an account
  Ends-asked :
      ((k : ℕ) → lib.get_accounts k ≢ ok none)
      → (fuel n : ℕ) (c : Connector) → c.session ≡ none
      → Ends (suc fuel) n c
  Ends-asked answers fuel n c ended = elim (Result-cases (lib.open_session n)) [
    | inr (e, failed) ↦
        Ends-failed fuel n c c e
          (in_new_session lib prefix n c ended ∙ unopened lib prefix n c e failed)
    | inl (peer_id, opened) ↦ elim (Result-cases (lib.get_accounts n)) [
      | inr (e, failed) ↦
          Ends-failed fuel n c _ e (
            in_new_session lib prefix n c ended ∙ unanswered lib prefix n c peer_id e opened failed)
      | inl (none, answered) ↦ absurd (answers n answered)
      | inl (some a, answered) ↦ Ends-found fuel n c _ a (
          in_new_session lib prefix n c ended
          ∙ asked lib prefix n c peer_id (some a) opened answered)
    ]
  ]

  connect-retried :
      (fuel n : ℕ) (c t : Connector)
      → account_of lib prefix n c ≡ (ok none, t)
      → lib.kill_session n ≡ ok tt
      → connect lib prefix (suc fuel) n c
        ≡ connect lib prefix fuel (suc n) (record t { session = none })
  unfolding connect finish
  connect-retried fuel n c t h killed = simp (h, killed)

  connect-not_killed :
      (fuel n : ℕ) (c t : Connector) (e : Thrown)
      → account_of lib prefix n c ≡ (ok none, t)
      → lib.kill_session n ≡ err e
      → connect lib prefix (suc fuel) n c ≡ some (err e, t)
  unfolding connect finish
  connect-not_killed fuel n c t e h killed = simp (h, killed)

  -- Where an answered account is read back from the text that is stored of it, and no new session
  -- comes without an account: a connection ends within two attempts, whatever the session and the
  -- storage are; and where it gives a wallet, one attempt after a reload gives the same wallet if the
  -- chain's endpoint answers then, and the endpoint's error otherwise, and leaves the session and the
  -- storage as they are.
  pub connect_lem :
      ((k : ℕ) → lib.get_accounts k ≢ ok none)
      → (fuel n : ℕ) (c : Connector)
      → (r : Result AccountData) × (t : Connector) × (connect lib prefix (suc (suc fuel)) n c
          ≡ some (r, t))
        × Repeats lib prefix r t
  connect_lem answers fuel n c = elim (Result-cases (account_of lib prefix n c).0) [
    | inr (e, h) ↦ Ends-failed (suc fuel) n c _ e (ap (λ r. (r, (account_of lib prefix n c).1)) h)
    | inl (some a, h) ↦
        Ends-found (suc fuel) n c _ a (ap (λ r. (r, (account_of lib prefix n c).1)) h)
    | inl (none, h) ↦
        let t = (account_of lib prefix n c).1 in
        let h : account_of lib prefix n c ≡ (ok none, t) = ap (λ r. (r, t)) h in
        elim (Result-cases (lib.kill_session n)) [
          | inr (e, killed) ↦
              (err e, t, connect-not_killed (suc fuel) n c t e h killed, Repeats-err e t)
          | inl (tt, killed) ↦
              let (r, u, ended, again) =
                Ends-asked answers fuel (suc n) (record t { session = none }) refl in
              (r, u, connect-retried (suc fuel) n c t h killed ∙ ended, again)
        ]
  ]
