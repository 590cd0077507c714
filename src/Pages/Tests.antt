-- ===== src/Pages/Tests.antt =====
-- Runs of the page loop.
use mathlib.Core.List.{Memᴰ}
use widget_demo.Prelude.{
  ℕ, String, true, false, ◌≡◌, ◌↔◌, refl, Option, none, some, List, [], ◌∷◌, HttpError, Result, ok,
  err, is_some, length, arith, ◌<◌, bad_gateway,
}
use widget_demo.Texts.{is_truthy}
use widget_demo.Pages.{
  Page, collect_next, collect_page, collect_from, collect_pages, page_of, read_page, get_page,
}
use widget_demo.Pages.Ending.{Known, collect_pages-ends}
use widget_demo.Pages.Walks.{Walk, NoRepeat, collect_pages_iff}

abbrev first_page : Page ℕ
first_page = record { items = 1 ∷ 2 ∷ []; next_cursor = some "b" }

abbrev last_page : Page ℕ
last_page = record { items = 3 ∷ []; next_cursor = none }

abbrev load_two : ℕ → Option String → Result HttpError (Page ℕ)
load_two n none = ok first_page
load_two n (some cursor) = ok last_page

abbrev load_loop : ℕ → Option String → Result HttpError (Page ℕ)
load_loop n cursor = ok first_page

two_pages : collect_pages load_two 2 ≡ some (ok (1 ∷ 2 ∷ 3 ∷ []))
unfolding collect_pages collect_from collect_page collect_next is_truthy
two_pages = refl

repeated_cursor :
    collect_pages load_loop 3 ≡ some (err (bad_gateway "EduPlus repeated an opaque cursor"))
unfolding collect_pages collect_from collect_page collect_next is_truthy
repeated_cursor = refl

page_without_cursor :
    get_page
      (ok (record { status = 200; records = some []; next_cursor = some ""; has_more = true }))
    ≡ err (bad_gateway "EduPlus returned a page without its next cursor")
unfolding get_page read_page page_of is_truthy
page_without_cursor = refl

rejected_token :
    get_page (ok (record { status = 403; records = none; next_cursor = none; has_more = false }))
    ≡ err (HttpError.forbidden "EduPlus data policy denied access")
unfolding get_page read_page
rejected_token = refl

load_two-Known : Known load_two ("b" ∷ [])
unfolding Known is_truthy
load_two-Known n none page next e h =
    let same : page.next_cursor ≡ some "b" = cc e in Memᴰ.head (cc (rw same at h))
load_two-Known n (some cursor) page next e h =
    let same : page.next_cursor ≡ none = cc e in absurd (cc (rw same at h))

collect_pages-ends_example : is_some (collect_pages load_two 2) ≡ true
collect_pages-ends_example = collect_pages-ends load_two ("b" ∷ []) load_two-Known 2 (omega arith)

collect_pages_iff_example : (collect_pages load_two 2 ≡ some (ok (1 ∷ 2 ∷ 3 ∷ []))) ↔ (
    (cursors : List String) × Walk load_two 0 none cursors (1 ∷ 2 ∷ 3 ∷ [])
    × NoRepeat [] cursors
    × (length cursors < 2))
collect_pages_iff_example = collect_pages_iff load_two 2 (1 ∷ 2 ∷ 3 ∷ [])
