-- ===== src/Location.antt =====
-- The addresses of the screens that show lists: which page, tab and order they hold, and what the
-- clicks write into them. From react-app/src/components: ProposalScreen/ProposalScreen.tsx,
-- ValidatorScreen/ValidatorScreen.tsx, ProposalHistory/ProposalHistoryAPI.ts, and
-- ProposalVotesPanel.tsx and ProposalDepositsPanel.tsx of ProposalDetailScreen.
-- `setSearchParams` puts new parameters in the place of all the old ones. The default parameters
-- that three screens give to `useSearchParams` are the ones that their reads fall back to.
pub mod Digits
pub mod Pages
pub mod Orders
use mathlib.Core.Option
use likedao.Common.{
  ℕ, zero, suc, ◌+◌, ◌*◌, ◌/◌, ◌%◌, ◌≡◌, refl, Bool, true, false, ◌&&◌, ◌||◌, Option, none, some,
  List, [], ◌∷◌, String, str_append, str_eq, find, ltb, ◌==◌, or_else, if◌then◌else◌,
}
use likedao.Common.Int.{ℤ, pos, negsuc, pos_part, neg_part, ◌+ℤ◌, ◌-ℤ◌, scale_ℤ, ltb_ℤ}
use likedao.Chain.{Wallet}
use likedao.Lists.{
  ProposalTab, tab_label, selected_tab, ValidatorTab, all_validators, active, inactive, HistoryTab,
  voted, submitted, deposited,
}
use likedao.Location.Digits.{text_of, show, parse_int}

abbrev pub SearchParams : Type 0
SearchParams = List (String × String)

-- `searchParams.get(key)`
abbrev pub get : String → SearchParams → Option String
get key [] = none
get key ((k, v) ∷ params) = if str_eq k key then some v else get key params

-- the decimals of r / size, where r < size: a division of each remainder, until none is left
pub decimals_of : ℕ → ℕ → ℕ → List ℕ
decimals_of zero size r = []
decimals_of (suc fuel) size r =
    let rest = decimals_of fuel size (r * 10 % size) in
    if r == 0 then [] else (r * 10 / size) ∷ rest

-- `(m / size).toString()`, for a size of which a power of ten is a multiple
unfoldable pub quotient_text : ℕ → ℤ → String
unfolding decimals_of
quotient_text size m =
    let n = pos_part m + neg_part m in
    let whole = str_append (if ltb_ℤ m (pos 0) then "-" else "") (show (n / size)) in
    if n % size == 0
    then whole
    else str_append whole (str_append "." (text_of (decimals_of size size (n % size))))

-- `${Math.floor(m / size)}`
unfoldable pub floor_text : ℕ → ℤ → String
floor_text size (pos n) = show (n / size)
floor_text size (negsuc n) = str_append "-" (show ((n + size) / size))

-- `(parseInt(searchParams.get("page") ?? "1", 10) - 1) * size`; NaN is none
unfoldable pub page_offset : ℕ → SearchParams → Option ℤ
page_offset size params =
    Option.map (λ page. scale_ℤ size (page -ℤ pos 1)) (parse_int (or_else (get "page" params) "1"))

-- the text of `after / size + 1`
abbrev pub page_text : ℕ → Option ℤ → String
page_text size none = "NaN"
page_text size (some after) = quotient_text size (after +ℤ pos size)

abbrev pub floor_page_text : ℕ → Option ℤ → String
floor_page_text size none = "NaN"
floor_page_text size (some after) = floor_text size (after +ℤ pos size)

-- `Table.ColumnOrder`, with any texts
pub record SortOrder : Type 0 where
  pub id : String
  pub direction : String

-- `sortBy && sortDirection ? … : undefined`
pub both_given : Option String → Option String → Option SortOrder
both_given none direction = none
both_given (some id) none = none
both_given (some id) (some direction) =
    if str_eq id "" || str_eq direction ""
    then none
    else some (record { id = id; direction = direction })

unfoldable pub sort_order_of : SearchParams → Option SortOrder
unfolding both_given
sort_order_of params = both_given (get "sortBy" params) (get "sortDirection" params)

-- `handleSort` of a column's header in common/Table/Table.tsx: the order that a click asks for
unfoldable pub handle_sort : Option SortOrder → String → SortOrder
handle_sort none id = record { id = id; direction = "asc" }
handle_sort (some order) id = record {
  id = id;
  direction = if str_eq order.id id && str_eq order.direction "asc" then "desc" else "asc";
}

abbrev pub proposal_list_page_size : ℕ
proposal_list_page_size = 5

-- ProposalScreen.tsx
module _ (wallet : Wallet) where
  unfoldable pub set_proposals_page : SearchParams → Option ℤ → SearchParams
  set_proposals_page params after =
      ("tab", tab_label (selected_tab wallet (get "tab" params)))
      ∷ ("page", page_text proposal_list_page_size after)
      ∷ []

unfoldable pub select_proposals_tab : ProposalTab → SearchParams
select_proposals_tab tab = ("tab", tab_label tab) ∷ ("page", "1") ∷ []

-- ValidatorScreen.tsx
abbrev pub validator_list_page_size : ℕ
validator_list_page_size = 20

abbrev pub validator_tab_label : ValidatorTab → String
validator_tab_label active = "active"
validator_tab_label inactive = "inactive"
validator_tab_label all_validators = "all"

abbrev pub validator_tab_items : List ValidatorTab
validator_tab_items = active ∷ inactive ∷ all_validators ∷ []

-- `defaultTabItems.find((i) => i.value === text)`, and the default item
abbrev pub chosen_validators : Option String → ValidatorTab
chosen_validators none = active
chosen_validators (some text) =
    or_else (find (λ tab. str_eq (validator_tab_label tab) text) validator_tab_items) active

unfoldable pub selected_validators : SearchParams → ValidatorTab
selected_validators params = chosen_validators (get "tab" params)

unfoldable pub set_validators_page : SearchParams → Option ℤ → SearchParams
unfolding selected_validators
set_validators_page params after =
    ("tab", validator_tab_label (selected_validators params))
    ∷ ("page", page_text validator_list_page_size after)
    ∷ []

unfoldable pub select_validators_tab : ValidatorTab → SearchParams
select_validators_tab tab = ("tab", validator_tab_label tab) ∷ ("page", "1") ∷ []

-- `handleSort`, which keeps the page
unfoldable pub sort_validators : SearchParams → SortOrder → SearchParams
unfolding selected_validators page_offset
sort_validators params order =
    ("tab", validator_tab_label (selected_validators params))
    ∷ ("page", page_text validator_list_page_size (page_offset validator_list_page_size params))
    ∷ ("sortBy", order.id)
    ∷ ("sortDirection", order.direction)
    ∷ []

-- ProposalHistoryAPI.ts
abbrev pub history_page_size : ℕ
history_page_size = 2

abbrev pub history_tab_label : HistoryTab → String
history_tab_label voted = "voted"
history_tab_label submitted = "submitted"
history_tab_label deposited = "deposited"

-- the text of the tab, whatever it is
unfoldable pub selected_history : SearchParams → String
selected_history params = or_else (get "tab" params) "voted"

unfoldable pub set_history_page : SearchParams → Option ℤ → SearchParams
unfolding selected_history
set_history_page params after =
    ("tab", selected_history params) ∷ ("page", page_text history_page_size after) ∷ []

unfoldable pub select_history_tab : HistoryTab → SearchParams
select_history_tab tab = ("tab", history_tab_label tab) ∷ ("page", "1") ∷ []

-- ProposalVotesPanel.tsx, and ProposalDepositsPanel.tsx, which has the same handlers
abbrev pub panel_page_size : ℕ
panel_page_size = 5

unfoldable pub set_panel_page : Option ℤ → SearchParams
set_panel_page after = ("page", floor_page_text panel_page_size after) ∷ []

unfoldable pub sort_panel : SortOrder → SearchParams
sort_panel order = ("sortBy", order.id) ∷ ("sortDirection", order.direction) ∷ []

-- the arguments of the screens' `fetch`
pub record ListRequest (Tab : Type 0) : Type 0 where
  pub first : ℕ
  pub after : Option ℤ
  pub order : Option SortOrder
  pub tab : Tab

unfoldable pub proposals_fetch : Wallet → SearchParams → ListRequest ProposalTab
unfolding page_offset
proposals_fetch wallet params = record {
  first = proposal_list_page_size;
  after = page_offset proposal_list_page_size params;
  order = none;
  tab = selected_tab wallet (get "tab" params);
}

unfoldable pub validators_fetch : SearchParams → ListRequest ValidatorTab
unfolding page_offset selected_validators sort_order_of
validators_fetch params = record {
  first = validator_list_page_size;
  after = page_offset validator_list_page_size params;
  order = sort_order_of params;
  tab = selected_validators params;
}

unfoldable pub history_fetch : SearchParams → ListRequest String
unfolding page_offset selected_history
history_fetch params = record {
  first = history_page_size;
  after = page_offset history_page_size params;
  order = none;
  tab = selected_history params;
}

unfoldable pub panel_request : SearchParams → ListRequest (Unit {0})
unfolding page_offset sort_order_of
panel_request params = record {
  first = panel_page_size;
  after = page_offset panel_page_size params;
  order = sort_order_of params;
  tab = tt;
}

half_page : quotient_text 20 (pos 31) ≡ "1.55"
unfolding quotient_text show decimals_of
half_page = refl

before_first : floor_text 5 (negsuc 0) ≡ "-1"
unfolding floor_text show
before_first = refl

third_page : page_offset 5 (("page", "3") ∷ []) ≡ some (pos 10)
unfolding page_offset parse_int ◌-ℤ◌
third_page = refl
