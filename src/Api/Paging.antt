-- ===== src/Api/Paging.antt =====
-- The loop of react-app/src/api/stakingAPI.ts that collects a paginated answer, three times there.
use likedao.Common.{
  ℕ, zero, suc, ◌≤◌, ◌≡◌, Bool, true, false, Option, none, some, List, [], ◌∷◌, ◌++◌, Result, ok,
  err, arith, inl, inr, ◌↔◌, Bool-cases, Result-cases, sym, ◌∙◌,
}
use mathlib.Core.List.{append_assoc}
use mathlib.Core.Path.{subst}
use likedao.Chain.{Bytes, Page}

-- `startAtKey?.length !== 0 && startAtKey !== undefined`
abbrev pub has_more : Option Bytes → Bool
has_more none = false
has_more (some []) = false
has_more (some (_ ∷ _)) = true

module _ {A : Type 0} (fetch : Option Bytes → Result (Page A)) where
  -- the do-while loop over the pages, from `startAtKey` and the responses so far; `none` means that
  -- the fuel ran out
  unfoldable pub load_from : ℕ → Option Bytes → List A → Option (Result (List A))
  load_from zero key loaded = none
  load_from (suc fuel) key loaded = elim (fetch key) [
    | err e ↦ some (err e)
    | ok page ↦ elim (has_more page.next_key) [
      | true ↦ load_from fuel page.next_key (loaded ++ page.responses)
      | false ↦ some (ok (loaded ++ page.responses))
    ]
  ]

  unfoldable pub load_pages : ℕ → Option (Result (List A))
  load_pages fuel = load_from fuel none []

  -- What the server answers from a key on: the number of its pages and all their responses.
  pub data Serves : Option Bytes → ℕ → List A → Type 0 where
    last :
        {key : Option Bytes} {page : Page A}
        → fetch key ≡ ok page
        → has_more page.next_key ≡ false
        → Serves key 1 page.responses
    more :
        {key : Option Bytes} {page : Page A} {n : ℕ} {xs : List A}
        → fetch key ≡ ok page
        → has_more page.next_key ≡ true
        → Serves page.next_key n xs
        → Serves key (suc n) (page.responses ++ xs)

  load_from_complete :
      (fuel : ℕ) (loaded : List A) {key : Option Bytes} {n : ℕ} {xs : List A}
      → n ≤ fuel
      → Serves key n xs
      → load_from fuel key loaded ≡ some (ok (loaded ++ xs))
  unfolding load_from
  load_from_complete zero loaded h (last e k) = absurd (omega arith)
  load_from_complete zero loaded h (more e k r) = absurd (omega arith)
  load_from_complete (suc fuel) loaded h (last e k) = ground arith
  load_from_complete (suc fuel) loaded h (more {page} {n} {xs} e k r) = ground (
    arith,
    load_from_complete fuel (loaded ++ page.responses) (omega arith) r,
    append_assoc loaded page.responses xs,
  )

  -- what the loop has found, as far as the fuel goes
  abbrev Found : ℕ → Option Bytes → List A → List A → Type 0
  Found fuel key loaded ys =
      (n : ℕ) × (xs : List A) × (n ≤ fuel) × Serves key n xs × (ys ≡ loaded ++ xs)

  load_from_sound :
      (fuel : ℕ) (key : Option Bytes) (loaded ys : List A)
      → load_from fuel key loaded ≡ some (ok ys)
      → Found fuel key loaded ys
  unfolding load_from
  load_from_sound zero key loaded ys h = cc
  load_from_sound (suc fuel) key loaded ys h = elim (Result-cases (fetch key)) [
    | inr (e, failed) ↦ absurd (ground arith)
    | inl (page, answered) ↦ elim (Bool-cases (has_more page.next_key)) [
      | inl again ↦
          let (n, xs, within, served, split) =
            load_from_sound fuel page.next_key (loaded ++ page.responses) ys (ground arith) in
          (
            suc n,
            page.responses ++ xs,
            omega arith,
            more answered again served,
            split ∙ append_assoc loaded page.responses xs,
          )
      | inr stop ↦ (1, page.responses, omega arith, last answered stop, ground arith)
    ]
  ]

  -- The loop returns a list exactly when the server's pages, at most as many as the fuel, hold that
  -- list: no page is skipped, repeated or reordered.
  pub load_pages_iff :
      (fuel : ℕ) (xs : List A)
      → (load_pages fuel ≡ some (ok xs)) ↔ ((n : ℕ) × (n ≤ fuel) × Serves none n xs)
  unfolding load_pages
  load_pages_iff fuel xs = (
    λ h.
        let (n, ys, within, served, split) = load_from_sound fuel none [] xs h in
        (n, within, subst (λ zs. Serves none n zs) (sym split) served),
    λ (n, within, served). load_from_complete fuel [] within served,
  )
