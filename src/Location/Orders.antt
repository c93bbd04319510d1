-- ===== src/Location/Orders.antt =====
-- What a click on a column's header, or on a tab, asks for.
use text.Mathlib.TextPositions.{eq_refl}
use mathlib.Core.Path.{subst}
use likedao.Common.{
  ℕ, ◌*◌, ◌≡◌, ◌≢◌, refl, sym, ap, ◌∙◌, ◌⊎◌, inl, inr, Bool-cases, false, ◌&&◌, Option, none, some,
  String, str_eq, str_eq_iff, arith,
}
use likedao.Common.Int.{pos, ◌-ℤ◌}
use likedao.Location.{
  both_given, SearchParams, SortOrder, get, page_offset, page_text, sort_order_of, handle_sort,
  validators_fetch, sort_validators, panel_request, sort_panel,
}
use likedao.Location.Digits.{parse_int}
use likedao.Location.Pages.{page_offset-show, page_text-page, validators_tab_again}

-- an order that a header asks for
abbrev IsDirection : String → Type 0
IsDirection direction = (direction ≡ "asc") ⊎ (direction ≡ "desc")

handle_sort-IsDirection :
    (order : Option SortOrder) (id : String) → IsDirection (handle_sort order id).direction
unfolding handle_sort
handle_sort-IsDirection none id = inl refl
handle_sort-IsDirection (some order) id =
    elim (Bool-cases (str_eq order.id id && str_eq order.direction "asc")) [
      | inl e ↦ inr (rw e refl)
      | inr e ↦ inl (rw e refl)
    ]

direction-ne-nil : (direction : String) → IsDirection direction → direction ≢ ""
direction-ne-nil direction (inl e) h = cc (e, h)
direction-ne-nil direction (inr e) h = cc (e, h)

ne→str_eq : (s : String) → s ≢ "" → str_eq s "" ≡ false
ne→str_eq s h = ground (arith, str_eq_iff s "")

sort_order_of-given :
    (params : SearchParams) (order : SortOrder)
    → get "sortBy" params ≡ some order.id
    → get "sortDirection" params ≡ some order.direction
    → order.id ≢ ""
    → IsDirection order.direction
    → sort_order_of params ≡ some order
unfolding sort_order_of
sort_order_of-given params order by direction h k = simp (
  by,
  direction,
  both_given,
  ne→str_eq order.id h,
  ne→str_eq order.direction (direction-ne-nil order.direction k),
)

id_asked : (order : Option SortOrder) (id : String) → (handle_sort order id).id ≡ id
unfolding handle_sort
id_asked none id = refl
id_asked (some order) id = refl

asc-ne-desc : ◌≢◌ {A = String} "asc" "desc"
asc-ne-desc e = cc (ap (str_eq "asc") e)

abbrev ordered : String → String → SortOrder
ordered id direction = record { id = id; direction = direction }

-- a click on the header of the order's own column turns the order round
asc_turned : (id : String) → handle_sort (some (ordered id "asc")) id ≡ ordered id "desc"
unfolding handle_sort
asc_turned id = simp eq_refl

desc_turned : (id : String) → handle_sort (some (ordered id "desc")) id ≡ ordered id "asc"
unfolding handle_sort
desc_turned id = simp eq_refl

-- one more click restores the order
abbrev Alternates : String → String → Type 0
Alternates id direction =
    (handle_sort (some (handle_sort (some (ordered id direction)) id)) id ≡ ordered id direction)
    × ((handle_sort (some (ordered id direction)) id).direction ≢ direction)

Alternates-IsDirection : (id direction : String) → IsDirection direction → Alternates id direction
Alternates-IsDirection id direction (inl e) = subst (Alternates id) (sym e) (
  simp (asc_turned, desc_turned),
  λ h. asc-ne-desc (sym h ∙ ap (λ o. o.direction) (asc_turned id)),
)
Alternates-IsDirection id direction (inr e) = subst (Alternates id) (sym e) (
  simp (asc_turned, desc_turned),
  λ h. asc-ne-desc (sym (ap (λ o. o.direction) (desc_turned id)) ∙ h),
)

-- On page k, a click on the header of a column asks for the order by that column. The list of
-- validators keeps its page and its tab; the votes and the deposits go back to the first page. A
-- second click on the same header turns the direction round, and a third turns it back.
pub sort_clicks_lem :
    (params : SearchParams) (k : ℕ) (id : String)
    → id ≢ ""
    → (validators_fetch params).after ≡ some (pos (k * 20))
    → let asked = handle_sort (validators_fetch params).order id in
      (asked.id ≡ id)
      × (validators_fetch (sort_validators params asked)
          ≡ record (validators_fetch params) { order = some asked })
      × (panel_request (sort_panel asked)
          ≡ record { first = 5; after = some (pos 0); order = some asked; tab = tt })
      × (handle_sort (some (handle_sort (some asked) id)) id ≡ asked)
      × ((handle_sort (some asked) id).direction ≢ asked.direction)
unfolding validators_fetch sort_validators panel_request sort_panel page_offset parse_int ◌-ℤ◌
sort_clicks_lem params k id h at_page =
    let asked = handle_sort (sort_order_of params) id in
    let same_id : asked.id ≡ id = id_asked (sort_order_of params) id in
    let is_direction = handle_sort-IsDirection (sort_order_of params) id in
    let given : asked.id ≢ "" = λ e. h (sym same_id ∙ e) in
    let (restored, turned) = Alternates-IsDirection asked.id asked.direction is_direction in
    (
      same_id,
      λ i. record {
        first = 20;
        after =
            (page_offset-show 20 (omega arith) k (sort_validators params asked)
                  (ap some (ap (page_text 20) at_page ∙ page_text-page 20 (omega arith) k))
                ∙ sym at_page)
              i;
        order =
            sort_order_of-given (sort_validators params asked) asked refl refl given is_direction i;
        tab = validators_tab_again (get "tab" params) i;
      },
      λ i. record {
        first = 5;
        after = some (pos 0);
        order = sort_order_of-given (sort_panel asked) asked refl refl given is_direction i;
        tab = tt;
      },
      subst (λ c. handle_sort (some (handle_sort (some asked) c)) c ≡ asked) same_id restored,
      subst (λ c. (handle_sort (some asked) c).direction ≢ asked.direction) same_id turned,
    )
