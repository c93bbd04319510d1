-- ===== src/Examples/Locations.antt =====
-- Clicks on the lists, with a connected wallet.
use likedao.Common.{ℕ, ◌*◌, ◌≡◌, ◌≢◌, refl, ap, none, some, [], ◌∷◌, String, str_eq}
use likedao.Common.Int.{pos, ◌-ℤ◌}
use likedao.Chain.{connected}
use likedao.Page.{offset_based, on_page_change}
use likedao.Location.Digits.{parse_int}
use likedao.Location.{
  SearchParams, page_offset, handle_sort, proposals_fetch, set_proposals_page, validators_fetch,
  set_validators_page, sort_validators, history_fetch, set_history_page, panel_request,
  set_panel_page, sort_panel,
}
use likedao.Location.Pages.{page_clicks_lem}
use likedao.Location.Orders.{sort_clicks_lem}

abbrev params : SearchParams
params = ("tab", "inactive") ∷ ("page", "4") ∷ ("sortBy", "name") ∷ ("sortDirection", "asc") ∷ []

page_clicks_lem_example :
    let wallet = connected "like1" in
    let clicked = λ (size : ℕ). some (pos (on_page_change (offset_based size 90 15) 2)) in
    (proposals_fetch wallet (set_proposals_page wallet params (clicked 5))
      ≡ record (proposals_fetch wallet params) { after = some (pos (2 * 5)) })
    × (validators_fetch (set_validators_page params (clicked 20))
        ≡ record (validators_fetch params) { after = some (pos (2 * 20)); order = none })
    × (history_fetch (set_history_page params (clicked 2))
        ≡ record (history_fetch params) { after = some (pos (2 * 2)) })
    × (panel_request (set_panel_page (clicked 5))
        ≡ record (panel_request params) { after = some (pos (2 * 5)); order = none })
page_clicks_lem_example = page_clicks_lem (connected "like1") params 2 90 15

on_fourth_page : (validators_fetch params).after ≡ some (pos (3 * 20))
unfolding validators_fetch page_offset parse_int ◌-ℤ◌
on_fourth_page = refl

name-ne-nil : ◌≢◌ {A = String} "name" ""
name-ne-nil e = cc (ap (str_eq "") e)

sort_clicks_lem_example :
    let asked = handle_sort (validators_fetch params).order "name" in
    (asked.id ≡ "name")
    × (validators_fetch (sort_validators params asked)
        ≡ record (validators_fetch params) { order = some asked })
    × (panel_request (sort_panel asked)
        ≡ record { first = 5; after = some (pos 0); order = some asked; tab = tt })
    × (handle_sort (some (handle_sort (some asked) "name")) "name" ≡ asked)
    × ((handle_sort (some asked) "name").direction ≢ asked.direction)
sort_clicks_lem_example = sort_clicks_lem params 3 "name" name-ne-nil on_fourth_page
