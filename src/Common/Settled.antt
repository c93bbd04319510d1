-- ===== src/Common/Settled.antt =====
-- A promise that has settled: its value, or what was thrown. `error` is an instance of Error with
-- its message, `other` is any other thrown value.
use Prim.Native.String.{String}
use mathlib.Core.Path.{◌≡◌, refl}
use mathlib.Core.Logic.{◌⊎◌, inl, inr}
use mathlib.Core.Bool.{Bool, true, false}
use mathlib.Core.Option.{Option, none, some}
use mathlib.Core.List.{List, [], ◌∷◌}

pub data Thrown : Type 0 where
  error : String → Thrown
  other : Thrown

pub data Result {ℓ} (A : Type ℓ) : Type ℓ where
  ok : A → Result A
  err : Thrown → Result A

module _ {ℓ κ} {A : Type ℓ} {B : Type κ} where
  infixl 5 ◌>>=◌ ◌>>◌
  -- `await r`, and the rest with its value
  abbrev pub ◌>>=◌ : Result A → (A → Result B) → Result B
  r >>= next = elim r [ err thrown ↦ err thrown | ok value ↦ next value ]

  abbrev pub ◌>>◌ : Result A → Result B → Result B
  r >> rest = r >>= λ _. rest

  -- what an awaited value must have been, where the whole is fulfilled
  pub >>=-eq-ok :
      {b : B} (r : Result A) (next : A → Result B)
      → (r >>= next) ≡ ok b
      → (value : A) × (r ≡ ok value) × (next value ≡ ok b)
  >>=-eq-ok (err thrown) next h = cc
  >>=-eq-ok (ok value) next h = (value, refl, h)

-- `if (c) throw new Error(message)`
abbrev pub throw_if : Bool → String → Result (Unit {0})
throw_if true message = err (error message)
throw_if false message = ok tt

-- `if (!o) throw new Error(message)`, and the value otherwise
abbrev pub or_throw {ℓ} : {A : Type ℓ} → Option A → String → Result A
or_throw none message = err (error message)
or_throw (some a) message = ok a

-- `Promise.all` of one call for each element: all the values in order, or one rejection. Which of
-- several rejections is reported depends on timing; the leftmost is taken here.
abbrev pub all_ok {ℓ κ} : {A : Type ℓ} {B : Type κ} → (A → Result B) → List A → Result (List B)
all_ok f [] = ok []
all_ok f (x ∷ xs) = do b ← f x; bs ← all_ok f xs; ok (b ∷ bs)

pub Result-cases {ℓ} :
    {A : Type ℓ} (r : Result A) → ((a : A) × (r ≡ ok a)) ⊎ ((e : Thrown) × (r ≡ err e))
Result-cases (ok a) = inl (a, refl)
Result-cases (err e) = inr (e, refl)

-- What follows a check that throws.
pub throw_if->>= {ℓ} :
    {A : Type ℓ} (b : Bool) (message : String) (k : Result A)
    → (throw_if b message >>= λ _. k) ≡ elim b [ true ↦ err (error message) | false ↦ k ]
throw_if->>= true message k = refl
throw_if->>= false message k = refl

-- a check that lets pass found nothing wrong, and a value that was asked for is there
pub throw_if-eq-ok :
    (b : Bool) (message : String) {u : Unit {0}} → throw_if b message ≡ ok u → b ≡ false
throw_if-eq-ok true message h = cc
throw_if-eq-ok false message h = refl

pub or_throw-eq-ok {ℓ} :
    {A : Type ℓ} (o : Option A) (message : String) {a : A} → or_throw o message ≡ ok a → o ≡ some a
or_throw-eq-ok none message h = cc
or_throw-eq-ok (some a) message h = cc

pub ok-injective {ℓ} : {A : Type ℓ} (a b : A) → ok a ≡ ok b → a ≡ b
ok-injective a b h = cc
