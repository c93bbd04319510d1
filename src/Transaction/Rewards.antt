-- ===== src/Transaction/Rewards.antt =====
-- Whose rewards the modal for collecting them shows.
use likedao.Common.{◌≡◌, refl, ◌⊎◌, inl, inr, List, [], ◌∷◌, ◌++◌, All, String, Result, ok, err}
use mathlib.Core.Path.{subst}
use likedao.Amount.{BigNumberCoin}
use likedao.Chain.{connecting, idle, connected}
use likedao.Transaction.{collect_rewards}
use likedao.Transaction.Modals.{
  ProviderState, collect_rewards_shown, open_modal, close_modals, on_wallet, on_rewards,
  shown_modal, Step, opens, closes, renders, answers, Run, stays, goes, initial_provider,
}

All-++ :
    (P : String → Type 0) (before : List String) (x : String) (rest : List String)
    → All P (before ++ x ∷ rest)
    → P x × All P (before ++ rest)
All-++ P [] x rest h = h
All-++ P (b ∷ before) x rest h = let (p, all) = All-++ P before x rest h.1 in (p, (h.0, all))

module _ {B : Type 0} (Gives : String → Result (BigNumberCoin B) → Type 0) (zero : B)
    (P : String → Type 0) where
  -- the amount is 0, or the rewards of an address that the run has connected
  pub IsAnswered : B → Type 0
  IsAnswered amount =
      (amount ≡ zero)
      ⊎ ((address : String) × (r : BigNumberCoin B) × P address
          × Gives address (ok r)
          × (amount ≡ r.amount))

  IsKept : ProviderState B → Type 0
  unfolding IsAnswered
  IsKept s = IsAnswered s.available_rewards × All P s.asked

  IsKept-answer :
      (s : ProviderState B) (address : String) (asked : List String)
      (answer : Result (BigNumberCoin B))
      → Gives address answer
      → P address
      → All P asked
      → IsAnswered s.available_rewards
      → IsKept (on_rewards answer asked s)
  unfolding IsKept IsAnswered on_rewards
  IsKept-answer s address asked (ok r) e p all h = (inr (address, r, p, e, refl), all)
  IsKept-answer s address asked (err x) e p all h = (h, all)

  Step-IsKept : {s t : ProviderState B} → Step Gives P s t → IsKept s → IsKept t
  unfolding IsKept open_modal close_modals on_wallet
  Step-IsKept (opens modal) h = h
  Step-IsKept closes h = h
  Step-IsKept (renders connecting p) h = h
  Step-IsKept (renders idle p) h = h
  Step-IsKept (renders (connected address) p) h = (h.0, (p, h.1))
  Step-IsKept (answers {s} before address rest answer gives stands) h =
      let (p, all) = All-++ P before address rest (subst (λ xs. All P xs) stands h.1) in
      IsKept-answer s address (before ++ rest) answer gives p all h.0

  Run-IsKept : {s t : ProviderState B} → Run Gives P s t → IsKept s → IsKept t
  Run-IsKept stays h = h
  Run-IsKept (goes run step) h = Step-IsKept step (Run-IsKept run h)

  module _ (balance : B) (a b : String) (ra rb : BigNumberCoin B) (allows_a : P a) (allows_b : P b)
      (gives_a : Gives a (ok ra)) (gives_b : Gives b (ok rb)) where
    -- both wallets have been rendered, and only the request of the first is left
    abbrev second_answered : ProviderState B
    second_answered =
        on_rewards (ok rb) (a ∷ [])
          (on_wallet (connected b) (on_wallet (connected a) (initial_provider zero)))

    abbrev late : ProviderState B
    late = open_modal collect_rewards (on_rewards (ok ra) [] second_answered)

    late-Run : Run Gives P (initial_provider zero) late
    unfolding on_wallet on_rewards
    late-Run =
        goes
          (goes
            (goes
              (goes (goes stays (renders (connected a) allows_a)) (renders (connected b) allows_b))
              (answers [] b (a ∷ []) (ok rb) gives_b refl))
            (answers [] a [] (ok ra) gives_a refl))
          (opens collect_rewards)

    late_shown :
        (late.wallet ≡ connected b)
        × (late.asked ≡ [])
        × (shown_modal zero balance late ≡ collect_rewards_shown ra.amount)
    unfolding open_modal on_rewards on_wallet shown_modal
    late_shown = (refl, refl, refl)

    -- Whatever the user opens and closes, whichever wallets are connected one after the other, and in
    -- whatever order the requests are answered: the rewards that are shown are 0 or those of an
    -- address that was connected in the run. They need not be those of the wallet that is connected:
    -- for any two addresses with rewards, a run ends with the second connected, every request
    -- answered, and the rewards of the first shown for collecting.
    pub rewards_lem :
        (t : ProviderState B)
        → Run Gives P (initial_provider zero) t
        → IsAnswered t.available_rewards
          × ((u : ProviderState B) × Run Gives P (initial_provider zero) u
              × (u.wallet ≡ connected b)
              × (u.asked ≡ [])
              × (shown_modal zero balance u ≡ collect_rewards_shown ra.amount))
    unfolding IsKept IsAnswered
    rewards_lem t run = (
      (Run-IsKept run (inl refl, tt)).0,
      (late, late-Run, late_shown.0, late_shown.1, late_shown.2),
    )
