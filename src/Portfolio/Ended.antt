-- ===== src/Portfolio/Ended.antt =====
-- The page of a portfolio for what its two fetches come to.
use mathlib.Core.Option
use mathlib.Core.Option.{some-injective}
use likedao.Common.{
  ℕ, ◌≡◌, refl, sym, ap, ◌∙◌, Bool, true, false, Option, none, some, List, [], ◌∷◌, ◌++◌, ◌↔◌, ◌||◌,
  ◌⊎◌, inl, inr, any, Thrown, String, str_eq, str_eq_iff, error, other, Result, ok, err,
  ok-injective, Bool-cases, arith,
}
use likedao.Amount.{BigNumberCoin}
use likedao.Chain.{Session, Wallet, connecting, idle, connected}
use likedao.Api.Staking.{get_address_staked_balance, get_unstaking_amount}
use likedao.Request.{RequestState, initial, loading, loaded, failed}
use likedao.Portfolio.{Portfolio, settle, portfolio_of, fetch_address_portfolio}
use likedao.Portfolio.Screen.{
  ScreenEffect, connect_wallet_modal_opened, navigated, is_set, page_address, error_toast,
  failure_effects, is_your_portfolio, history_effects, data_of, state_after, effects_of,
  where_loaded, view_of, PortfolioPage, page_after,
}

bound :
    {A B : Type 0} (o : Option A) (f : A → Option B) (b : B)
    → Option.bind o f ≡ some b
    → (a : A) × (o ≡ some a) × (f a ≡ some b)
unfolding Option.bind
bound none f b h = cc
bound (some a) f b h = (a, refl, h)

mapped :
    {A B : Type 0} (o : Option A) (f : A → B) (b : B)
    → Option.map f o ≡ some b
    → (a : A) × (o ≡ some a) × (f a ≡ b)
mapped none f b h = cc
mapped (some a) f b h = (a, refl, cc)

module _ (s : Session) (fuel : ℕ) where
  open s.numbers use {BigNumber}

  portfolio_of-address :
      (address : String) (a b c d e : Result (BigNumberCoin BigNumber)) (p : Portfolio BigNumber)
      → portfolio_of s address a b c d e ≡ ok p
      → p.address ≡ address
  unfolding portfolio_of
  portfolio_of-address address (err x) b c d e p h = absurd cc
  portfolio_of-address address (ok v) (err x) c d e p h = absurd cc
  portfolio_of-address address (ok v) (ok w) (err x) d e p h = absurd cc
  portfolio_of-address address (ok v) (ok w) (ok x) (err y) e p h = absurd cc
  portfolio_of-address address (ok v) (ok w) (ok x) (ok y) (err z) p h = absurd cc
  portfolio_of-address address (ok v) (ok w) (ok x) (ok y) (ok z) p h =
      sym (ap (λ q. q.address) (ok-injective _ p h))

  pub fetch_address_portfolio-address :
      (address : String) (p : Portfolio BigNumber)
      → fetch_address_portfolio s fuel address ≡ some (ok p)
      → p.address ≡ address
  unfolding fetch_address_portfolio
  fetch_address_portfolio-address address p h =
      let (staked, _, h) = bound (get_address_staked_balance s fuel address) _ _ h in
      let (unstaking, _, h) = mapped (get_unstaking_amount s fuel address) _ _ h in
      portfolio_of-address address _ staked unstaking _ _ p h

-- whether an effect leads to the route for invalid addresses
abbrev pub is_navigated : ScreenEffect → Bool
is_navigated connect_wallet_modal_opened = false
is_navigated (navigated route) = str_eq route "/invalid-address"
is_navigated (error_toast key) = false

abbrev pub is_modal_opened : ScreenEffect → Bool
is_modal_opened connect_wallet_modal_opened = true
is_modal_opened (navigated route) = false
is_modal_opened (error_toast key) = false

-- the states after the two fetches
abbrev pub portfolio_state : {A : Type 0} → Result A → RequestState A
portfolio_state r = state_after initial (loading ∷ settle r)

abbrev pub stakes_state : {A : Type 0} → Result A → RequestState A
stakes_state (ok a) = loaded a
stakes_state (err e) = failed e

any-++ : {A : Type 0} (f : A → Bool) (xs ys : List A) → any f (xs ++ ys) ≡ any f xs || any f ys
any-++ f [] ys = refl
any-++ f (x ∷ xs) ys = ground (arith, any-++ f xs ys)

-- the rejection for an address without an account
abbrev pub invalid : Thrown
invalid = error "Invalid address"

abbrev is_invalid : {A : Type 0} → Result A → Bool
is_invalid (ok a) = false
is_invalid (err (error message)) = str_eq message "Invalid address"
is_invalid (err other) = false

is_invalid_iff : {A : Type 0} (r : Result A) → (is_invalid r ≡ true) ↔ (r ≡ err invalid)
is_invalid_iff (ok a) = (λ h. absurd cc, λ h. absurd cc)
is_invalid_iff (err other) = (λ h. absurd cc, λ h. absurd cc)
is_invalid_iff (err (error message)) =
    let (to, from) = str_eq_iff message "Invalid address" in
    (λ h. ap (λ m. err (error m)) (to h), λ h. from cc)

portfolio_navigates :
    {A : Type 0} (key : String) (r : Result A)
    → any is_navigated (failure_effects key (portfolio_state r)) ≡ is_invalid r
portfolio_navigates key (ok a) = refl
portfolio_navigates key (err (error message)) = ground arith
portfolio_navigates key (err other) = refl

stakes_navigate :
    {A : Type 0} (key : String) (r : Result A)
    → any is_navigated (failure_effects key (stakes_state r)) ≡ is_invalid r
stakes_navigate key (ok a) = refl
stakes_navigate key (err (error message)) = ground arith
stakes_navigate key (err other) = refl

history_navigates : {A : Type 0} (h : RequestState A) → any is_navigated (history_effects h) ≡ false
history_navigates initial = refl
history_navigates loading = refl
history_navigates (loaded value) = refl
history_navigates (failed reason) = refl

no_modal_failed :
    {A : Type 0} (key : String) (state : RequestState A)
    → any is_modal_opened (failure_effects key state) ≡ false
no_modal_failed key initial = refl
no_modal_failed key loading = refl
no_modal_failed key (loaded value) = refl
no_modal_failed key (failed (error message)) = ground arith
no_modal_failed key (failed other) = refl

no_modal_history :
    {A : Type 0} (h : RequestState A) → any is_modal_opened (history_effects h) ≡ false
no_modal_history initial = refl
no_modal_history loading = refl
no_modal_history (loaded value) = refl
no_modal_history (failed reason) = refl

-- where an address is there, the effects are those of the three requests
effects-set :
    {P R H : Type 0} (wallet : Wallet) (address : Option String) (portfolio : RequestState P)
    (stakes : RequestState R) (history : RequestState H)
    → is_set address ≡ true
    → effects_of wallet address portfolio stakes history
      ≡ failure_effects "PortfolioScreen.portfolio.requestState.error" portfolio
        ++ failure_effects "PortfolioScreen.stakes.requestState.error" stakes
        ++ history_effects history
unfolding effects_of
effects-set idle none portfolio stakes history h = absurd cc
effects-set idle (some a) portfolio stakes history h = ground (arith, h)
effects-set connecting address portfolio stakes history h = refl
effects-set (connected a) address portfolio stakes history h = refl

-- a panel is there where both requests are loaded
both_loaded :
    {P R : Type 0} (r : Result P) (q : Result R) (yours : Bool) (p : P) (mine : Bool)
    → (where_loaded {A = P × Bool}
          (Option.map (λ p. (p, yours)) (data_of (portfolio_state r)))
          (data_of (stakes_state q))
        ≡ some (p, mine))
      ↔ ((r ≡ ok p) × ((rows : R) × (q ≡ ok rows)) × (mine ≡ yours))
both_loaded (ok a) (ok rows) yours p mine =
    (λ h. (cc, (rows, refl), cc), λ x. let e : a ≡ p = cc in let m = x.2 in cc)
both_loaded (ok a) (err e) yours p mine = (λ h. absurd cc, λ x. let e = x.1.1 in absurd cc)
both_loaded (err (error m)) (ok rows) yours p mine = (λ h. absurd cc, λ x. let e = x.0 in absurd cc)
both_loaded (err (error m)) (err e) yours p mine = (λ h. absurd cc, λ x. let e = x.0 in absurd cc)
both_loaded (err other) (ok rows) yours p mine = (λ h. absurd cc, λ x. let e = x.0 in absurd cc)
both_loaded (err other) (err e) yours p mine = (λ h. absurd cc, λ x. let e = x.0 in absurd cc)

either_invalid :
    {P R : Type 0} (r : Result P) (q : Result R)
    → (is_invalid r || is_invalid q ≡ true) ↔ ((r ≡ err invalid) ⊎ (q ≡ err invalid))
either_invalid r q = elim (Bool-cases (is_invalid r)) [
  | inl e ↦ (λ h. inl ((is_invalid_iff r).0 e), λ h. ground (arith, e))
  | inr e ↦ (
    λ h. inr ((is_invalid_iff q).0 (ground (arith, e, h))),
    elim [
      | inl a ↦ let b = (is_invalid_iff r).1 a in absurd cc
      | inr b ↦ let b = (is_invalid_iff q).1 b in ground (arith, b)
    ],
  )
]

-- the URL gives no address, or an empty one
abbrev pub HasNoAddress : Option String → Type 0
HasNoAddress url = (url ≡ none) ⊎ (url ≡ some "")

-- `mine` says whether the URL gives no address
abbrev pub IsOwn : Option String → Bool → Type 0
IsOwn url mine = (mine ≡ true) ↔ HasNoAddress url

pub is_your_portfolio_iff :
    (url : Option String) → (is_your_portfolio url ≡ true) ↔ HasNoAddress url
unfolding is_your_portfolio
is_your_portfolio_iff none = (λ h. inl refl, λ h. refl)
is_your_portfolio_iff (some address) =
    let (to, from) = str_eq_iff address "" in
    (
      λ h. inr (ap some (to (ground (arith, h)))),
      elim [
        | inl e ↦ absurd cc
        | inr e ↦ let at = from (some-injective _ _ e) in ground (arith, at)
      ],
    )

IsOwn-iff : (url : Option String) (mine : Bool) → (mine ≡ is_your_portfolio url) ↔ IsOwn url mine
IsOwn-iff url mine =
    let (to, from) = is_your_portfolio_iff url in
    (
      λ e. (λ h. to (sym e ∙ h), λ h. e ∙ from h),
      λ (there, back). elim (Bool-cases mine) [
        | inl h ↦ h ∙ sym (from (there h))
        | inr h ↦ elim (Bool-cases (is_your_portfolio url)) [
          | inl y ↦ let m = back (to y) in absurd cc
          | inr y ↦ h ∙ sym y
        ]
      ],
    )

module _ {P R H : Type 0} (url : Option String) (wallet : Wallet) (r : Result P) (q : Result R)
    (history : RequestState H) where
  abbrev pub ended_page : PortfolioPage P R H
  ended_page = page_after url wallet (portfolio_state r) (stakes_state q) history

  pub panel_iff :
      (p : P) (mine : Bool)
      → (ended_page.view.panel ≡ some (p, mine))
        ↔ ((r ≡ ok p) × ((rows : R) × (q ≡ ok rows)) × IsOwn url mine)
  unfolding page_after view_of
  panel_iff p mine =
      let (shows, hides) = both_loaded r q (is_your_portfolio url) p mine in
      let (own, back) = IsOwn-iff url mine in
      (λ h. let (e, rows, m) = shows h in (e, rows, own m), λ (e, rows, m). hides (e, rows, back m))

  module _ (given : is_set (page_address url wallet) ≡ true) where
    navigates-eq : any is_navigated ended_page.effects ≡ is_invalid r || is_invalid q
    unfolding page_after
    navigates-eq =
        simp
          (
            effects-set wallet (page_address url wallet) (portfolio_state r) (stakes_state q)
                history given,
            any-++ is_navigated,
            portfolio_navigates _ r,
            stakes_navigate _ q,
            history_navigates history,
          )
          (ground arith)

    pub navigates_iff :
        (any is_navigated ended_page.effects ≡ true) ↔ ((r ≡ err invalid) ⊎ (q ≡ err invalid))
    navigates_iff =
        let (to, from) = either_invalid r q in
        (λ h. to (sym navigates-eq ∙ h), λ h. navigates-eq ∙ from h)

    pub no_modal : any is_modal_opened ended_page.effects ≡ false
    unfolding page_after
    no_modal =
        simp
          (
            effects-set wallet (page_address url wallet) (portfolio_state r) (stakes_state q)
                history given,
            any-++ is_modal_opened,
            no_modal_failed _ (portfolio_state r),
            no_modal_failed _ (stakes_state q),
            no_modal_history history,
          )
          refl
