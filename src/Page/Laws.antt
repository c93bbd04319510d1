-- ===== src/Page/Laws.antt =====
-- What the page controls reach.
use native.Mathlib.Nat.{le-div_iff_mul-le, mul-div_cancel}
use likedao.Common.{
  ℕ, zero, suc, ◌+◌, ◌-◌, ◌*◌, ◌/◌, ◌≤◌, ◌<◌, ◌≡◌, refl, ◌↔◌, false, none, some, arith, ltb, ◌==◌,
  if◌then◌else◌,
}
use likedao.Common.Int.{ℤ, pos, sub_ℕ}
use likedao.Page.{
  offset_based, current_page_of, total_page_of, can_go_previous, can_go_next, on_previous_click,
  on_next_click, on_page_change,
}

-- the two steps, from the current page `cur`, the pages `p`, and the offset `m` with the next one `n`
next_step :
    (p cur m n total size : ℕ) (z : ℤ)
    → n ≡ m + size
    → ((suc cur < p) ↔ (n < total))
    → ((if if p == 0 then false else ltb (cur + 1) p then some (pos (m + size)) else none) ≡ some z)
      ↔ ((z ≡ pos n) × (n < total))
next_step p cur m n total size z e (up, down) = (
  λ h. (ground (arith, up (ground arith)), ground (arith, up (ground arith))),
  λ h. ground (arith, h.0, down h.1),
)

previous_step :
    (p cur m size total : ℕ) (z : ℤ)
    → ((0 < p) ↔ (0 < total))
    → ((0 < cur) ↔ (size ≤ m))
    → ((if if p == 0 then false else ltb 1 (cur + 1) then some (sub_ℕ m size) else none) ≡ some z)
      ↔ ((o : ℕ) × (z ≡ pos o) × (o + size ≡ m) × (0 < total))
previous_step p cur m size total z (up, down) (back, forth) = (
  λ h. (
    m - size,
    ground (arith, up (ground arith), back (ground arith)),
    ground (arith, back (ground arith)),
    ground (arith, up (ground arith)),
  ),
  λ (o, e, at, some_item). ground (arith, e, down some_item, forth (omega arith)),
)

module _ (size total : ℕ) (h : 0 < size) where
  page_of : (k : ℕ) → k * size / size ≡ k
  page_of k = mul-div_cancel k h

  -- a page k exists exactly when some item is on it
  page_exists : (k : ℕ) → (k < (total + (size - 1)) / size) ↔ (k * size < total)
  page_exists k =
      let (up, down) = le-div_iff_mul-le {k = size} {x = suc k} {y = total + (size - 1)} h in
      (λ e. ground (arith, up (omega (arith, e))), λ e. omega (arith, down (omega (arith, e))))

  later_page : (k : ℕ) → (0 < k) ↔ (size ≤ k * size)
  later_page zero = (λ e. absurd (omega arith), λ e. absurd (omega (arith, h)))
  later_page (suc k) = (λ e. omega arith, λ e. omega arith)

  -- At the offset of page k, the controls step to the neighbouring pages and to no other offset:
  -- on by a page size exactly where an item lies there, back by one exactly where there is a page
  -- before and an item at all; otherwise they do not step. A page that is selected becomes the
  -- current one.
  pub pages_lem :
      (k : ℕ)
      → let props = offset_based size total (k * size) in
        ((z : ℤ)
          → (on_next_click props ≡ some z) ↔ ((z ≡ pos (suc k * size)) × (suc k * size < total)))
        × ((z : ℤ)
            → (on_previous_click props ≡ some z)
              ↔ ((o : ℕ) × (z ≡ pos o) × (o + size ≡ k * size) × (0 < total)))
        × ((offset : ℕ)
            → current_page_of
                (offset_based size total (on_page_change (offset_based size total offset) k))
              ≡ k)
  unfolding on_next_click on_previous_click can_go_next can_go_previous current_page_of
      total_page_of on_page_change
  pages_lem k =
      let fits : (k' : ℕ) → (k' < (total + (size - 1)) / size) ↔ (k' * size < total) =
        page_exists in
      rw (page_of k) (
        λ z.
            next_step ((total + (size - 1)) / size) k (k * size) (suc k * size) total size z
              (omega arith) (fits (suc k)),
        λ z.
            previous_step ((total + (size - 1)) / size) k (k * size) size total z
              (λ e. omega (arith, (fits 0).0 e), λ e. (fits 0).1 (omega (arith, e))) (later_page k),
        λ offset. refl,
      )
