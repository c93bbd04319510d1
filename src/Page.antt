-- ===== src/Page.antt =====
-- The page controls of react-app/src/components/common/PageController/PageController.tsx, as
-- functions of the props. A division by a page size of 0 is not modelled: no caller gives one.
pub mod Laws
use likedao.Common.{
  ℕ, ◌+◌, ◌-◌, ◌*◌, ◌/◌, Bool, true, false, not, Option, none, some, ltb, ◌==◌, if◌then◌else◌,
}
use likedao.Common.Int.{ℤ, pos, sub_ℕ, ◌-ℤ◌, eqb_ℤ}

pub data PageControllerProps : Type 0 where
  page_based : (total_page current_page : ℕ) → PageControllerProps
  offset_based : (page_size total_items current_offset : ℕ) → PageControllerProps

unfoldable pub current_page_of : PageControllerProps → ℕ
current_page_of (page_based total_page current_page) = current_page
current_page_of (offset_based page_size total_items current_offset) = current_offset / page_size

-- `Math.ceil(totalItems / pageSize)`
unfoldable pub total_page_of : PageControllerProps → ℕ
total_page_of (page_based total_page current_page) = total_page
total_page_of (offset_based page_size total_items current_offset) =
    (total_items + (page_size - 1)) / page_size

unfoldable pub can_go_previous : PageControllerProps → Bool
unfolding current_page_of total_page_of
can_go_previous props =
    if total_page_of props == 0 then false else ltb 1 (current_page_of props + 1)

unfoldable pub can_go_next : PageControllerProps → Bool
unfolding current_page_of total_page_of
can_go_next props =
    if total_page_of props == 0
    then false
    else ltb (current_page_of props + 1) (total_page_of props)

-- The argument of `onPageChange`, where the handler calls it.
unfoldable pub on_previous_click : PageControllerProps → Option ℤ
unfolding can_go_previous
on_previous_click (page_based total_page current_page) =
    if can_go_previous (page_based total_page current_page)
    then some (sub_ℕ current_page 1)
    else none
on_previous_click (offset_based page_size total_items current_offset) =
    if can_go_previous (offset_based page_size total_items current_offset)
    then some (sub_ℕ current_offset page_size)
    else none

unfoldable pub on_next_click : PageControllerProps → Option ℤ
unfolding can_go_next
on_next_click (page_based total_page current_page) =
    if can_go_next (page_based total_page current_page) then some (pos (current_page + 1)) else none
on_next_click (offset_based page_size total_items current_offset) =
    if can_go_next (offset_based page_size total_items current_offset)
    then some (pos (current_offset + page_size))
    else none

unfoldable pub on_page_change : PageControllerProps → ℕ → ℕ
on_page_change (page_based total_page current_page) selected = selected + 1
on_page_change (offset_based page_size total_items current_offset) selected = selected * page_size

-- what the paginator tells of a click; `next_selected_page` may be undefined
pub record ClickEvent : Type 0 where
  pub selected : ℕ
  pub next_selected_page : Option ℕ
  pub is_break : Bool

-- `none` is the answer `true`, which leaves the paginator to its own choice
pub data ClickAnswer : Type 0 where
  own_choice : ClickAnswer
  page : ℕ → ClickAnswer

-- The halves of the pages after and before the selected one. The paginator shows a break only
-- beside pages that exist, so that neither subtraction goes below 0.
unfoldable pub on_click : PageControllerProps → ClickEvent → ClickAnswer
unfolding total_page_of
on_click props event = elim event.is_break [
  | false ↦ own_choice
  | true ↦ elim event.next_selected_page [
    | none ↦ own_choice
    | some next ↦
        if next == event.selected + 1
        then page ((total_page_of props + event.selected - 2) / 2)
        else if next + 1 == event.selected
        then page ((event.selected - 1) / 2)
        else own_choice
  ]
]
