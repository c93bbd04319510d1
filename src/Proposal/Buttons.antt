-- ===== src/Proposal/Buttons.antt =====
-- When a click on the page of a proposal leads to a vote or a deposit.
use likedao.Common.{
  ◌≡◌, ◌↔◌, ◌⊎◌, inl, inr, refl, sym, ap, ◌∙◌, true, Option, none, some, [], ◌∷◌, String, ok,
  >>=-eq-ok, arith,
}
use likedao.Chain.{Wallet, connecting, idle, connected}
use likedao.Proposal.Actions.{
  ProposalStatus, passed, rejected, deposit_period, voting_period, invalid, execution_failed,
  ProposalPeriodType, voting, deposit, Dates, HeaderProposal, ProposalDetailModal, vote_modal,
  deposit_modal, modal_set, connect_wallet_opened, in_deposit, in_voting, period_in,
  proposal_period, handle_open_modal, button_click, click_button,
}

module _ (dates : Dates) (now : dates.Time) where
  open dates use {Time, is_before, is_within_interval}

  -- the voting period has both of its times, and now lies between them
  pub record IsVoting (p : HeaderProposal Time) : Type 0 where
    pub status_voting : p.status ≡ voting_period
    pub start_time : Time
    pub end_time : Time
    pub starts : p.voting_start_time ≡ some start_time
    pub ends : p.voting_end_time ≡ some end_time
    pub inside : is_within_interval now start_time end_time ≡ ok true

  -- the deposit period has an end, which is after now
  pub record IsDepositing (p : HeaderProposal Time) : Type 0 where
    pub status_deposit : p.status ≡ deposit_period
    pub end_time : Time
    pub ends : p.deposit_end_time ≡ some end_time
    pub before : is_before now end_time ≡ true

  in_voting-eq :
      (s e : Option Time) (period : ProposalPeriodType)
      → in_voting dates now s e ≡ ok (some period)
      → (period ≡ voting)
        × (start_time end_time : Time) × (s ≡ some start_time)
        × (e ≡ some end_time)
        × (is_within_interval now start_time end_time ≡ ok true)
  in_voting-eq none e period h = cc
  in_voting-eq (some s) none period h = cc
  in_voting-eq (some s) (some e) period h = (ground arith, s, e, refl, refl, ground arith)

  -- the test of the deposit's end decides nothing else
  in_deposit-eq :
      (e : Option Time) (period : ProposalPeriodType)
      → in_deposit dates now e ≡ some period
      → (period ≡ deposit)
        × (end_time : Time) × (e ≡ some end_time)
        × (is_before now end_time ≡ true)
  in_deposit-eq none period h = cc
  in_deposit-eq (some e) period h = (ground arith, e, refl, ground arith)

  -- a period that is found is one of the two
  period_in-cases :
      (status : ProposalStatus) (p : HeaderProposal Time) (period : ProposalPeriodType)
      → p.status ≡ status
      → period_in dates status now p ≡ ok (some period)
      → ((period ≡ voting) × IsVoting p) ⊎ ((period ≡ deposit) × IsDepositing p)
  unfolding period_in
  period_in-cases voting_period p period e h =
      let (is_voting, s, t, starts, ends, inside) =
        in_voting-eq p.voting_start_time p.voting_end_time period h in
      inl (
        is_voting,
        record {
          status_voting = e;
          start_time = s;
          end_time = t;
          starts = starts;
          ends = ends;
          inside = inside;
        },
      )
  period_in-cases deposit_period p period e h =
      let (is_deposit, end_time, ends, before) =
        in_deposit-eq p.deposit_end_time period (ground arith) in
      inr (
        is_deposit,
        record { status_deposit = e; end_time = end_time; ends = ends; before = before },
      )
  period_in-cases passed p period e h = cc
  period_in-cases rejected p period e h = cc
  period_in-cases invalid p period e h = cc
  period_in-cases execution_failed p period e h = cc

  voting_found :
      (p : HeaderProposal Time) → IsVoting p → proposal_period dates now p ≡ ok (some voting)
  unfolding proposal_period period_in
  voting_found p v = simp (v.status_voting, v.starts, v.ends, v.inside)

  deposit_found :
      (p : HeaderProposal Time) → IsDepositing p → proposal_period dates now p ≡ ok (some deposit)
  unfolding proposal_period period_in
  deposit_found p v = simp (v.status_deposit, v.ends, v.before, in_deposit)

  abbrev pub IsConnected : Wallet → Type 0
  IsConnected wallet = (address : String) × (wallet ≡ connected address)

  abbrev modal_of : ProposalPeriodType → ProposalDetailModal
  modal_of voting = vote_modal
  modal_of deposit = deposit_modal

  -- the button that opened a modal, and the wallet that it found
  button_click-eq-modal_set :
      (period : Option ProposalPeriodType) (wallet : Wallet) (modal : ProposalDetailModal)
      → button_click dates period wallet ≡ some (modal_set modal ∷ [])
      → ((q : ProposalPeriodType) × (period ≡ some q) × (modal_of q ≡ modal)) × IsConnected wallet
  unfolding handle_open_modal
  button_click-eq-modal_set none wallet modal h = cc
  button_click-eq-modal_set (some voting) connecting modal h = cc
  button_click-eq-modal_set (some voting) idle modal h = cc
  button_click-eq-modal_set (some voting) (connected address) modal h =
      ((voting, refl, cc), (address, refl))
  button_click-eq-modal_set (some deposit) connecting modal h = cc
  button_click-eq-modal_set (some deposit) idle modal h = cc
  button_click-eq-modal_set (some deposit) (connected address) modal h =
      ((deposit, refl, cc), (address, refl))

  -- the button that asked to connect a wallet
  button_click-eq-connect_wallet :
      (period : Option ProposalPeriodType) (wallet : Wallet)
      → button_click dates period wallet ≡ some (connect_wallet_opened ∷ [])
      → ((q : ProposalPeriodType) × (period ≡ some q)) × (wallet ≡ idle)
  unfolding handle_open_modal
  button_click-eq-connect_wallet none wallet h = cc
  button_click-eq-connect_wallet (some voting) connecting h = cc
  button_click-eq-connect_wallet (some voting) idle h = ((voting, refl), refl)
  button_click-eq-connect_wallet (some voting) (connected address) h = cc
  button_click-eq-connect_wallet (some deposit) connecting h = cc
  button_click-eq-connect_wallet (some deposit) idle h = ((deposit, refl), refl)
  button_click-eq-connect_wallet (some deposit) (connected address) h = cc

  asked :
      (p : HeaderProposal Time) (wallet : Wallet)
      → click_button dates now p wallet ≡ ok (some (connect_wallet_opened ∷ []))
      → (IsVoting p ⊎ IsDepositing p) × (wallet ≡ idle)
  unfolding click_button proposal_period
  asked p wallet h =
      let (period, found, h) = >>=-eq-ok (proposal_period dates now p) _ h in
      let ((q, is_q), is_idle) = button_click-eq-connect_wallet period wallet (ground arith) in
      (
        elim (period_in-cases p.status p q refl (found ∙ ap ok is_q)) [
          | inl (e, v) ↦ inl v
          | inr (e, v) ↦ inr v
        ],
        is_idle,
      )

  opened :
      (p : HeaderProposal Time) (wallet : Wallet) (modal : ProposalDetailModal)
      → click_button dates now p wallet ≡ ok (some (modal_set modal ∷ []))
      → (((modal ≡ vote_modal) × IsVoting p) ⊎ ((modal ≡ deposit_modal) × IsDepositing p))
        × IsConnected wallet
  unfolding click_button proposal_period
  opened p wallet modal h =
      let (period, found, h) = >>=-eq-ok (proposal_period dates now p) _ h in
      let ((q, is_q, is_modal), is_connected) =
        button_click-eq-modal_set period wallet modal (ground arith) in
      (
        elim (period_in-cases p.status p q refl (found ∙ ap ok is_q)) [
          | inl (e, v) ↦ inl (sym is_modal ∙ ap modal_of e, v)
          | inr (e, v) ↦ inr (sym is_modal ∙ ap modal_of e, v)
        ],
        is_connected,
      )

  -- On the page of a proposal, a click on the button opens the form for a vote exactly when the
  -- wallet is connected, the proposal is in its voting period and now lies between its two times; the
  -- form for a deposit exactly when the wallet is connected, the proposal is in its deposit period and
  -- its end is after now. It asks to connect a wallet exactly when the wallet is idle and the
  -- proposal is in one of the two.
  pub button_iff :
      (p : HeaderProposal Time) (wallet : Wallet)
      → let opens = λ (modal : ProposalDetailModal).
        click_button dates now p wallet ≡ ok (some (modal_set modal ∷ [])) in
        (opens vote_modal ↔ (IsVoting p × IsConnected wallet))
        × (opens deposit_modal ↔ (IsDepositing p × IsConnected wallet))
        × ((click_button dates now p wallet ≡ ok (some (connect_wallet_opened ∷ [])))
            ↔ ((IsVoting p ⊎ IsDepositing p) × (wallet ≡ idle)))
  unfolding click_button handle_open_modal
  button_iff p wallet = (
    (
      λ h. elim (opened p wallet vote_modal h).0 [
        | inl (e, v) ↦ (v, (opened p wallet vote_modal h).1)
        | inr (e, v) ↦ cc
      ],
      λ (v, (address, e)). simp (voting_found p v, e),
    ),
    (
      λ h. elim (opened p wallet deposit_modal h).0 [
        | inl (e, v) ↦ cc
        | inr (e, v) ↦ (v, (opened p wallet deposit_modal h).1)
      ],
      λ (v, (address, e)). simp (deposit_found p v, e),
    ),
    (
      asked p wallet,
      λ (period, e). elim period [
        | inl v ↦ simp (voting_found p v, e)
        | inr v ↦ simp (deposit_found p v, e)
      ],
    ),
  )
