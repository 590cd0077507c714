-- ===== src/Pages/Walks.antt =====
-- What `collectPages` returns: the items of the pages along the service's chain of cursors.
use widget_demo.Prelude.{
  ℕ, zero, suc, ◌<◌, String, false, ◌≡◌, ◌↔◌, refl, Option, none, some, List, [], ◌∷◌, ◌++◌,
  HttpError, Result, ok, err, arith, inl, inr, Bool-cases, Option-cases, Result-cases, length,
}
use mathlib.Core.Path.{subst}
use widget_demo.Texts.{is_truthy}
use widget_demo.Pages.{
  Page, contains_text, Collected, prepend, collect_next, collect_page, collect_from, collect_pages,
}

-- the service answers with pages that name these cursors in turn, the last one names none
pub data Walk {A : Type 0} (load : ℕ → Option String → Result HttpError (Page A))
    : ℕ → Option String → List String → List A → Type 0 where
  last :
      {n : ℕ} {cursor : Option String} {page : Page A}
      → load n cursor ≡ ok page
      → is_truthy page.next_cursor ≡ none
      → Walk load n cursor [] page.items
  more :
      {n : ℕ} {cursor : Option String} {page : Page A} {next : String} {cursors : List String}
      {rest : List A}
      → load n cursor ≡ ok page
      → is_truthy page.next_cursor ≡ some next
      → Walk load (suc n) (some next) cursors rest
      → Walk load n cursor (next ∷ cursors) (page.items ++ rest)

-- no cursor of the list comes up twice, or has come up before
pub NoRepeat : List String → List String → Type 0
NoRepeat seen [] = Unit
NoRepeat seen (c ∷ cursors) = (contains_text c seen ≡ false) × NoRepeat (c ∷ seen) cursors

module _ {A : Type 0} where
  prepend-cases :
      (items all : List A) (r : Collected A)
      → prepend items r ≡ some (ok all)
      → (rest : List A) × (r ≡ some (ok rest)) × (items ++ rest ≡ all)
  prepend-cases items all none h = absurd (cc)
  prepend-cases items all (some (err why)) h = absurd (cc)
  prepend-cases items all (some (ok rest)) h = (rest, refl, cc)

module _ {A : Type 0} (load : ℕ → Option String → Result HttpError (Page A)) where
  walked :
      (fuel n : ℕ) (seen : List String) (cursor : Option String) (items : List A)
      → collect_from load fuel n seen cursor ≡ some (ok items)
      → (cursors : List String) × Walk load n cursor cursors items
        × NoRepeat seen cursors
        × (length cursors < fuel)
  unfolding collect_from collect_page collect_next NoRepeat
  walked zero n seen cursor items h = absurd (cc)
  walked (suc fuel) n seen cursor items h = elim (Result-cases (load n cursor)) [
    | inl (why, e) ↦ absurd (cc (rw e at h))
    | inr (page, e) ↦ elim (Option-cases (is_truthy page.next_cursor)) [
      | inl end ↦
          let same : page.items ≡ items = cc (rw (e, end) at h) in
          ([], subst (λ l. Walk load n cursor [] l) same (Walk.last e end), tt, omega arith)
      | inr (next, goes_on) ↦ elim (Bool-cases (contains_text next seen)) [
        | inl repeated ↦ absurd (cc (rw (e, goes_on, repeated) at h))
        | inr new ↦
            let (rest, later, joined) =
              prepend-cases page.items items _ (rw (e, goes_on, new) at h) in
            let (cursors, walk, distinct, short) =
              walked fuel (suc n) (next ∷ seen) (some next) rest later in
            (
              next ∷ cursors,
              subst (λ l. Walk load n cursor (next ∷ cursors) l) joined (Walk.more e goes_on walk),
              (new, distinct),
              omega arith,
            )
      ]
    ]
  ]

  collected :
      (fuel : ℕ) {n : ℕ} (seen : List String) {cursor : Option String} {cursors : List String}
      {items : List A}
      → Walk load n cursor cursors items
      → NoRepeat seen cursors
      → length cursors < fuel
      → collect_from load fuel n seen cursor ≡ some (ok items)
  unfolding collect_from collect_page collect_next NoRepeat
  collected zero seen walk distinct short = absurd (omega arith)
  collected (suc fuel) seen (Walk.last e end) distinct short = rw (e, end)
  collected (suc fuel) {n} seen (Walk.more {next} e goes_on walk) distinct short =
      rw (e, goes_on, distinct.0, collected fuel (next ∷ seen) walk distinct.1 (omega arith))

  -- With fuel for some number of pages, `collectPages` returns a list exactly if the service's
  -- pages name a chain of fewer cursors, none of them twice, and the list is the items of the
  -- pages in turn.
  pub collect_pages_iff :
      (fuel : ℕ) (items : List A)
      → (collect_pages load fuel ≡ some (ok items)) ↔ (
          (cursors : List String) × Walk load 0 none cursors items
          × NoRepeat [] cursors
          × (length cursors < fuel))
  unfolding collect_pages
  collect_pages_iff fuel items =
      (λ h. walked fuel 0 [] none items h, λ w. collected fuel [] w.1 w.2 w.3)
