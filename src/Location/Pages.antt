-- ===== src/Location/Pages.antt =====
-- What a click writes into an address is what is read of it.
use native.Mathlib.Nat.{mul-div_cancel, mul-mod_left, add-zero, mul-zero, mul_comm}
use text.Mathlib.TextLemmas.{nil-append}
use likedao.Common.{
  ℕ, suc, ◌+◌, ◌*◌, ◌<◌, ◌≡◌, refl, ap, Bool, Bool-cases, inl, inr, false, Option, none, some, List,
  [], ◌∷◌, All, String, str_eq, find, or_else, arith, ltb,
}
use likedao.Common.Int.{pos, ◌+ℤ◌, ◌-ℤ◌}
use likedao.Chain.{Wallet, connecting, idle, connected}
use likedao.Page.{offset_based, on_page_change}
use likedao.Lists.{default_tab_items, all, active, tab_items, tab_label, selected_tab}
use likedao.Location.Digits.{show, parse_int-show}
use likedao.Location.{
  SearchParams, get, quotient_text, floor_text, page_offset, page_text, floor_page_text,
  sort_order_of, proposals_fetch, set_proposals_page, validators_fetch, set_validators_page,
  history_fetch, set_history_page, panel_request, set_panel_page, selected_history,
  chosen_validators, validator_tab_label, validator_tab_items,
}

ltb-zero : (n : ℕ) → ltb n 0 ≡ false
ltb-zero n = ground arith

module _ (size : ℕ) (h : 0 < size) (k : ℕ) where
  next_pages : k * size + size ≡ suc k * size
  next_pages = omega arith

  -- the offset of page k, and the numerator of its number
  numerator : pos (k * size) +ℤ pos size ≡ pos (suc k * size)
  unfolding ◌+ℤ◌
  numerator = ground (arith, next_pages)

  pub page_text-page : page_text size (some (pos (k * size))) ≡ show (suc k)
  unfolding quotient_text
  page_text-page = simp (
    numerator,
    add-zero,
    ltb-zero,
    mul-div_cancel (suc k) h,
    mul-mod_left (suc k) size,
    nil-append,
  )

  floor_page_text-page : floor_page_text size (some (pos (k * size))) ≡ show (suc k)
  unfolding floor_text
  floor_page_text-page = simp (numerator, mul-div_cancel (suc k) h)

  -- the offset that is read of the number of page k
  pub page_offset-show :
      (params : SearchParams)
      → get "page" params ≡ some (show (suc k))
      → page_offset size params ≡ some (pos (k * size))
  unfolding page_offset ◌-ℤ◌
  page_offset-show params e =
      simp (e, parse_int-show (suc k)) (ap some (ground (arith, mul_comm size k, mul-zero size)))

module _ {A : Type 0} (P : A → Type 0) (p : A → Bool) where
  -- what holds of each item and of the default holds of the one that is found
  find-All : (items : List A) (d : A) → All P items → P d → P (or_else (find p items) d)
  find-All [] d h hd = hd
  find-All (x ∷ xs) d (hx, h) hd = elim (Bool-cases (p x)) [
    | inl found ↦ rw found hx
    | inr other ↦ rw other (find-All xs d h hd)
  ]

-- the label of the tab that was chosen chooses it again
proposals_tab_again :
    (wallet : Wallet) (text : Option String)
    → selected_tab wallet (some (tab_label (selected_tab wallet text))) ≡ selected_tab wallet text
unfolding selected_tab tab_items
proposals_tab_again connecting none = refl
proposals_tab_again idle none = refl
proposals_tab_again (connected address) none = refl
proposals_tab_again connecting (some text) =
    find-All (λ t. selected_tab connecting (some (tab_label t)) ≡ t)
      (λ t. str_eq (tab_label t) text) default_tab_items all
      (refl, (refl, (refl, (refl, (refl, tt))))) refl
proposals_tab_again idle (some text) =
    find-All (λ t. selected_tab idle (some (tab_label t)) ≡ t) (λ t. str_eq (tab_label t) text)
      default_tab_items all (refl, (refl, (refl, (refl, (refl, tt))))) refl
proposals_tab_again (connected address) (some text) =
    find-All (λ t. selected_tab (connected address) (some (tab_label t)) ≡ t)
      (λ t. str_eq (tab_label t) text) (tab_items (connected address)) all
      (refl, (refl, (refl, (refl, (refl, (refl, tt)))))) refl

pub validators_tab_again :
    (text : Option String)
    → chosen_validators (some (validator_tab_label (chosen_validators text)))
      ≡ chosen_validators text
validators_tab_again none = refl
validators_tab_again (some text) =
    find-All (λ t. chosen_validators (some (validator_tab_label t)) ≡ t)
      (λ t. str_eq (validator_tab_label t) text) validator_tab_items active
      (refl, (refl, (refl, tt))) refl

-- A click on page k of any of the lists asks for the items from k times the page size on, in the
-- tab that was shown; and for no order, whichever was chosen before.
pub page_clicks_lem :
    (wallet : Wallet) (params : SearchParams) (k total offset : ℕ)
    → let clicked = λ (size : ℕ). some (pos (on_page_change (offset_based size total offset) k)) in
      (proposals_fetch wallet (set_proposals_page wallet params (clicked 5))
        ≡ record (proposals_fetch wallet params) { after = some (pos (k * 5)) })
      × (validators_fetch (set_validators_page params (clicked 20))
          ≡ record (validators_fetch params) { after = some (pos (k * 20)); order = none })
      × (history_fetch (set_history_page params (clicked 2))
          ≡ record (history_fetch params) { after = some (pos (k * 2)) })
      × (panel_request (set_panel_page (clicked 5))
          ≡ record (panel_request params) { after = some (pos (k * 5)); order = none })
unfolding proposals_fetch set_proposals_page validators_fetch set_validators_page history_fetch
    set_history_page panel_request set_panel_page on_page_change sort_order_of
page_clicks_lem wallet params k total offset = (
  λ i. record {
    first = 5;
    after =
        page_offset-show 5 (omega arith) k (set_proposals_page wallet params (some (pos (k * 5))))
          (ap some (page_text-page 5 (omega arith) k)) i;
    order = none;
    tab = proposals_tab_again wallet (get "tab" params) i;
  },
  λ i. record {
    first = 20;
    after =
        page_offset-show 20 (omega arith) k (set_validators_page params (some (pos (k * 20))))
          (ap some (page_text-page 20 (omega arith) k)) i;
    order = none;
    tab = validators_tab_again (get "tab" params) i;
  },
  λ i. record {
    first = 2;
    after =
        page_offset-show 2 (omega arith) k (set_history_page params (some (pos (k * 2))))
          (ap some (page_text-page 2 (omega arith) k)) i;
    order = none;
    tab = selected_history params;
  },
  λ i. record {
    first = 5;
    after =
        page_offset-show 5 (omega arith) k (set_panel_page (some (pos (k * 5))))
          (ap some (floor_page_text-page 5 (omega arith) k)) i;
    order = none;
    tab = tt;
  },
)
