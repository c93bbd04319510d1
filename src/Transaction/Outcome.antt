-- ===== src/Transaction/Outcome.antt =====
-- How a submission ends.
use likedao.Common.{
  ◌≡◌, refl, ap, ◌↔◌, Bool, true, false, Option, none, some, List, String, any, Result, not, ok,
  err,
}
use likedao.Chain.{Bytes, DeliverTxResponse, Session, connected}
use likedao.Api.Cosmos.{broadcast_tx}
use likedao.Api.Bank.{sign_send_token_tx}
use likedao.Api.Distribution.{sign_withdraw_delegation_rewards_tx}
use likedao.Api.Answers.{broadcast_tx_iff}
use likedao.Transaction.{
  Event, modal_set, broadcasting, broadcast_succeeded, account_refreshed, error_shown,
  after_refresh, after_broadcast, after_sign, submit_as, submit_send_request,
  submit_collect_rewards_request,
}

abbrev pub is_refreshed : Event → Bool
is_refreshed account_refreshed = true
is_refreshed (modal_set modal) = false
is_refreshed broadcasting = false
is_refreshed broadcast_succeeded = false
is_refreshed (error_shown e) = false

abbrev pub is_error : Event → Bool
is_error (error_shown e) = true
is_error account_refreshed = false
is_error (modal_set modal) = false
is_error broadcasting = false
is_error broadcast_succeeded = false

abbrev pub is_closing : Event → Bool
is_closing (modal_set none) = true
is_closing (modal_set (some modal)) = false
is_closing (error_shown e) = false
is_closing account_refreshed = false
is_closing broadcasting = false
is_closing broadcast_succeeded = false

-- by what the two calls come to
broadcast_ends :
    (s : Session) (refreshed : Result (Unit {0})) (r : Result DeliverTxResponse)
    → let events = after_broadcast s refreshed r in
      ((any is_refreshed events ≡ true)
        ↔ (((res : DeliverTxResponse) × (r ≡ ok res)) × (refreshed ≡ ok tt)))
      × (any is_error events ≡ not (any is_refreshed events))
unfolding after_broadcast after_refresh
broadcast_ends s refreshed (err e) = ((λ h. cc, λ h. absurd (cc h.0.1)), refl)
broadcast_ends s (ok u) (ok res) = ((λ h. ((res, refl), refl), λ h. refl), refl)
broadcast_ends s (err e) (ok res) = ((λ h. cc, λ h. absurd (cc h.1)), refl)

module _ (s : Session) (refreshed : Result (Unit {0})) where
  -- the chain took the signed transaction
  abbrev pub Accepted : Result Bytes → Type 0
  Accepted signed =
      (tx : Bytes) × (res : DeliverTxResponse) × (signed ≡ ok tx)
      × (s.signer.broadcast_tx tx ≡ ok res)
      × (res.code ≡ 0)

  -- the account is refreshed exactly when all went well, an error is shown exactly when not, and no
  -- modal stays open
  abbrev pub Ends : Result Bytes → List Event → Type 0
  Ends signed events =
      ((any is_refreshed events ≡ true) ↔ (Accepted signed × (refreshed ≡ ok tt)))
      × (any is_error events ≡ not (any is_refreshed events))
      × (any is_closing events ≡ true)

  module _ (address : String) (is_connected : s.wallet ≡ connected address) where
    pub sign-Ends : (signed : Result Bytes) → Ends signed (after_sign s refreshed signed)
    unfolding after_sign
    sign-Ends (err e) = ((λ h. cc, λ h. absurd (cc h.0.2)), refl, refl)
    sign-Ends (ok tx) =
        let ((only, when), errors) = broadcast_ends s refreshed (broadcast_tx s tx) in
        (
          (
            λ h.
                let ((res, answered), refreshes) = only h in
                let (connects, sent, accepted) = (broadcast_tx_iff s tx res).0 answered in
                ((tx, res, refl, sent, accepted), refreshes),
            λ (accepted, refreshes).
                let (tx', res, same, sent, code) = accepted in
                let sent' : s.signer.broadcast_tx tx ≡ ok res = cc in
                when (
                  (res, (broadcast_tx_iff s tx res).1 ((address, is_connected), sent', code)),
                  refreshes,
                ),
          ),
          errors,
          refl,
        )

    pub submit_as-connected :
        (signed : Result Bytes)
        → submit_as s refreshed s.wallet signed ≡ after_sign s refreshed signed
    unfolding submit_as
    submit_as-connected signed = ap (λ w. submit_as s refreshed w signed) is_connected

    -- For a connected wallet, a submission of a transfer or of the collection of rewards refreshes
    -- the account exactly when the transaction was signed, the chain accepted it with the code 0, and
    -- the refresh went well; it shows an error exactly when it does not refresh the account; and it
    -- closes the modal in every case.
    pub submit-Ends :
        (recipent amount : String) (memo : Option String)
        → Ends
            (sign_send_token_tx s recipent amount memo)
            (submit_send_request s refreshed recipent amount memo)
          × Ends
              (sign_withdraw_delegation_rewards_tx s none)
              (submit_collect_rewards_request s refreshed)
    unfolding submit_send_request submit_collect_rewards_request
    submit-Ends recipent amount memo =
        let send = sign_send_token_tx s recipent amount memo in
        let collect = sign_withdraw_delegation_rewards_tx s none in
        (
          rw (submit_as-connected send) (sign-Ends send),
          rw (submit_as-connected collect) (sign-Ends collect),
        )
