-- ===== src/Apollo/Runs.antt =====
-- The runs of the link: they end, with every operation answered and the flag cleared.
use likedao.Common.{
  ℕ, zero, suc, ◌+◌, ◌*◌, ◌≤◌, ◌≡◌, refl, ap, ◌⊎◌, inl, inr, Bool, true, false, List, [], ◌∷◌, ◌++◌,
  All, Bool-cases, if◌then◌else◌, arith,
}
use likedao.Request.ServerError.{ApolloError}
use likedao.Apollo.{
  starts_sign_in, Operation, sent, signing_in, sent_again, sign_in_failed, delivered, LinkState,
  issue, on_error, after_sign_in, after_failed_sign_in, deliver, clear, Step, answers, signs_in,
  fails_to_sign_in, clears, answers_again, Run, begins, issues, steps,
}

-- the steps that an operation still takes at most, its sign-in's `finally` included
abbrev weight : Operation → ℕ
weight sent = 4
weight signing_in = 3
weight sent_again = 1
weight sign_in_failed = 0
weight (delivered e) = 0

abbrev is_signing_in : Operation → ℕ
is_signing_in sent = 0
is_signing_in signing_in = 1
is_signing_in sent_again = 0
is_signing_in sign_in_failed = 0
is_signing_in (delivered e) = 0

total : (Operation → ℕ) → List Operation → ℕ
total f [] = 0
total f (x ∷ xs) = f x + total f xs

total-split :
    (f : Operation → ℕ) (before rest : List Operation) (x : Operation)
    → total f (before ++ x ∷ rest) ≡ f x + total f (before ++ rest)
unfolding total
total-split f [] rest x = refl
total-split f (y ∷ before) rest x = omega (arith, total-split f before rest x)

-- what the flag counts
abbrev pub logging_in : LinkState → ℕ
logging_in s = if s.is_logging_in then 1 else 0

-- the sign-ins under way, and those whose `finally` has not run
pub sign_ins : LinkState → ℕ
unfolding total
sign_ins s = total is_signing_in s.operations + s.clearing

potential : LinkState → ℕ
unfolding total
potential s = total weight s.operations + s.clearing

-- the flag tells whether a sign-in is under way, and there is no second one
abbrev pub IsExclusive : LinkState → Type 0
IsExclusive s = sign_ins s ≡ logging_in s

module _ (s : LinkState) (before rest : List Operation) (x : Operation)
    (stands : s.operations ≡ before ++ x ∷ rest) where
  counted : (f : Operation → ℕ) → total f s.operations ≡ f x + total f (before ++ rest)
  counted f = rw stands (total-split f before rest x)

-- a list with one operation moved from `x` to `y`
moved :
    (s : LinkState) (before rest : List Operation) (x y : Operation) (f : Operation → ℕ)
    → s.operations ≡ before ++ x ∷ rest
    → total f (before ++ y ∷ rest) + f x ≡ total f s.operations + f y
moved s before rest x y f stands =
    omega (arith, counted s before rest x stands f, total-split f before rest y)

Step-potential : {s t : LinkState} → Step s t → suc (potential t) ≤ potential s
unfolding potential on_error after_sign_in after_failed_sign_in deliver clear
Step-potential (answers {s} before rest e stands) = ground (
  arith,
  moved s before rest sent signing_in weight stands,
  moved s before rest sent (delivered e) weight stands,
)
Step-potential (signs_in {s} before rest stands) =
    omega (arith, moved s before rest signing_in sent_again weight stands)
Step-potential (fails_to_sign_in {s} before rest stands) =
    omega (arith, moved s before rest signing_in sign_in_failed weight stands)
Step-potential (clears one) = omega (arith, one)
Step-potential (answers_again {s} before rest e stands) =
    omega (arith, moved s before rest sent_again (delivered e) weight stands)

Step-IsExclusive : {s t : LinkState} → Step s t → IsExclusive s → IsExclusive t
unfolding sign_ins on_error starts_sign_in after_sign_in after_failed_sign_in deliver clear
Step-IsExclusive (answers {s} before rest e stands) h = ground (
  arith,
  h,
  moved s before rest sent signing_in is_signing_in stands,
  moved s before rest sent (delivered e) is_signing_in stands,
)
Step-IsExclusive (signs_in {s} before rest stands) h =
    ground (arith, h, moved s before rest signing_in sent_again is_signing_in stands)
Step-IsExclusive (fails_to_sign_in {s} before rest stands) h =
    ground (arith, h, moved s before rest signing_in sign_in_failed is_signing_in stands)
Step-IsExclusive (clears {s} one) h = ground (arith, h, one)
Step-IsExclusive (answers_again {s} before rest e stands) h =
    ground (arith, h, moved s before rest sent_again (delivered e) is_signing_in stands)

total-append :
    (f : Operation → ℕ) (xs ys : List Operation) → total f (xs ++ ys) ≡ total f xs + total f ys
unfolding total
total-append f [] ys = omega arith
total-append f (x ∷ xs) ys = omega (arith, total-append f xs ys)

Run-potential : {n m : ℕ} {s : LinkState} → Run n m s → m + potential s ≤ 4 * n
unfolding potential issue total
Run-potential begins = omega arith
Run-potential (issues {s} run) =
    omega (arith, Run-potential run, total-append weight s.operations (sent ∷ []))
Run-potential (steps run step) = omega (arith, Run-potential run, Step-potential step)

Run-IsExclusive : {n m : ℕ} {s : LinkState} → Run n m s → IsExclusive s
unfolding sign_ins issue total
Run-IsExclusive begins = refl
Run-IsExclusive (issues {s} run) =
    ground (arith, Run-IsExclusive run, total-append is_signing_in s.operations (sent ∷ []))
Run-IsExclusive (steps run step) = Step-IsExclusive step (Run-IsExclusive run)

abbrev pub is_answered : Operation → Bool
is_answered sent = false
is_answered signing_in = false
is_answered sent_again = false
is_answered sign_in_failed = true
is_answered (delivered e) = true

abbrev pub AllAnswered : List Operation → Type 0
AllAnswered operations = All (λ x. is_answered x ≡ true) operations

-- an operation that is not answered yet, if there is one
unanswered :
    (operations : List Operation)
    → AllAnswered operations
      ⊎ ((before : List Operation) × (x : Operation) × (rest : List Operation) × (operations
            ≡ before ++ x ∷ rest)
          × (is_answered x ≡ false))
unanswered [] = inl tt
unanswered (x ∷ xs) = elim (Bool-cases (is_answered x)) [
  | inr e ↦ inr ([], x, xs, refl, e)
  | inl e ↦ elim (unanswered xs) [
    | inl all ↦ inl (e, all)
    | inr (before, y, rest, stands, left) ↦
        inr (x ∷ before, y, rest, ap (λ zs. x ∷ zs) stands, left)
  ]
]

no_sign_in :
    (operations : List Operation) → AllAnswered operations → total is_signing_in operations ≡ 0
unfolding total
no_sign_in [] h = refl
no_sign_in (sent ∷ xs) h = absurd (let e = h.0 in cc)
no_sign_in (signing_in ∷ xs) h = absurd (let e = h.0 in cc)
no_sign_in (sent_again ∷ xs) h = absurd (let e = h.0 in cc)
no_sign_in (sign_in_failed ∷ xs) h = omega (arith, no_sign_in xs h.1)
no_sign_in (delivered e ∷ xs) h = omega (arith, no_sign_in xs h.1)

abbrev no_error : ApolloError
no_error = record { has_network_error = false; graphql_error_codes = [] }

moves :
    (s : LinkState) (before : List Operation) (x : Operation) (rest : List Operation)
    → s.operations ≡ before ++ x ∷ rest
    → is_answered x ≡ false
    → (t : LinkState) × Step s t
moves s before sent rest stands left = (_, answers before rest no_error stands)
moves s before signing_in rest stands left = (_, signs_in before rest stands)
moves s before sent_again rest stands left = (_, answers_again before rest no_error stands)
moves s before sign_in_failed rest stands left = absurd cc
moves s before (delivered e) rest stands left = absurd cc

clearing_cases : (n : ℕ) → (n ≡ 0) ⊎ ((others : ℕ) × (n ≡ suc others))
clearing_cases zero = inl refl
clearing_cases (suc others) = inr (others, refl)

-- a state that takes no step has answered everything
ends :
    (s : LinkState)
    → IsExclusive s
    → (AllAnswered s.operations × (s.is_logging_in ≡ false)) ⊎ ((t : LinkState) × Step s t)
unfolding sign_ins
ends s exclusive = elim (unanswered s.operations) [
  | inr (before, x, rest, stands, left) ↦ inr (moves s before x rest stands left)
  | inl all ↦ elim (clearing_cases s.clearing) [
    | inl none_left ↦ inl (all, ground (arith, exclusive, none_left, no_sign_in s.operations all))
    | inr (others, left) ↦ inr (_, clears left)
  ]
]

-- Whatever is answered and in whatever order, a run that has issued `n` operations takes at most
-- 4 * n steps. In each of its states, the flag is set exactly when a sign-in is under way or has
-- just settled, and there is never a second one; and where no step is left, every operation is
-- answered and the flag is cleared.
pub link_runs :
    {n m : ℕ} {s : LinkState}
    → Run n m s
    → (m ≤ 4 * n)
      × (sign_ins s ≡ logging_in s)
      × ((AllAnswered s.operations × (s.is_logging_in ≡ false)) ⊎ ((t : LinkState) × Step s t))
link_runs {s} run =
    (omega (arith, Run-potential run), Run-IsExclusive run, ends s (Run-IsExclusive run))
