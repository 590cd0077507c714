-- ===== src/Pages/Ending.antt =====
-- The loop of `collectPages` ends, and asks for no page twice.
use mathlib.Core.List.{Memᴰ}
use widget_demo.Prelude.{
  ℕ, zero, suc, ◌≤◌, ◌<◌, String, true, false, not, ◌≡◌, refl, ap, Option, none, some, List, [],
  ◌∷◌, is_some, HttpError, Result, ok, err, arith, inl, inr, Bool-cases, Option-cases, Result-cases,
  length, count_if, eq_iff,
}
use widget_demo.Texts.{is_truthy}
use widget_demo.Pages.{
  Page, contains_text, Collected, prepend, collect_next, collect_page, collect_from, collect_pages,
}

-- how many of the known cursors have not come up
abbrev unseen : List String → List String → ℕ
unseen seen known = count_if (λ c. not (contains_text c seen)) known

unseen-le :
    (next : String) (seen known : List String) → unseen (next ∷ seen) known ≤ unseen seen known
unseen-le next seen [] = omega arith
unseen-le next seen (c ∷ known) = ground (arith, unseen-le next seen known)

unseen-lt :
    (next : String) (seen known : List String)
    → Memᴰ next known
    → contains_text next seen ≡ false
    → unseen (next ∷ seen) known < unseen seen known
unseen-lt next seen [] m h = elim m [ ]
unseen-lt next seen (c ∷ known) (Memᴰ.head e) h =
    ground (arith, unseen-le next seen known, ap (λ d. contains_text d seen) e, eq_iff next c)
unseen-lt next seen (c ∷ known) (Memᴰ.tail m) h = ground (arith, unseen-lt next seen known m h)

unseen_none : (known : List String) → unseen [] known ≡ length known
unseen_none [] = refl
unseen_none (c ∷ known) = ap suc (unseen_none known)

prepend-ends :
    {A : Type 0} (items : List A) (r : Collected A)
    → is_some r ≡ true
    → is_some (prepend items r) ≡ true
prepend-ends items none h = h
prepend-ends items (some (err why)) h = refl
prepend-ends items (some (ok rest)) h = refl

-- every cursor that a page names is one of the list
unfoldable pub Known :
    {A : Type 0} → (ℕ → Option String → Result HttpError (Page A)) → List String → Type 0
Known {A} load known =
    (n : ℕ) (cursor : Option String) (page : Page A) (next : String)
    → load n cursor ≡ ok page
    → is_truthy page.next_cursor ≡ some next
    → Memᴰ next known

module _ {A : Type 0} (load : ℕ → Option String → Result HttpError (Page A)) (known : List String)
    (is_known : Known load known) where
  collect_from-ends :
      (fuel n : ℕ) (seen : List String) (cursor : Option String)
      → unseen seen known < fuel
      → is_some (collect_from load fuel n seen cursor) ≡ true
  unfolding collect_from collect_page collect_next Known
  collect_from-ends zero n seen cursor h = absurd (omega arith)
  collect_from-ends (suc fuel) n seen cursor h = elim (Result-cases (load n cursor)) [
    | inl (why, e) ↦ rw e refl
    | inr (page, e) ↦ elim (Option-cases (is_truthy page.next_cursor)) [
      | inl last ↦ rw (e, last) refl
      | inr (next, more) ↦ elim (Bool-cases (contains_text next seen)) [
        | inl repeated ↦ rw (e, more, repeated) refl
        | inr new ↦
            let less = unseen-lt next seen known (is_known n cursor page next e more) new in
            rw (e, more, new)
              (prepend-ends page.items _
                (collect_from-ends fuel (suc n) (next ∷ seen) (some next) (omega arith)))
      ]
    ]
  ]

  -- If all of the cursors that the service names are in a list, then fuel for one page more than
  -- the list is long is enough for `collectPages` to return or to raise.
  pub collect_pages-ends :
      (fuel : ℕ) → length known < fuel → is_some (collect_pages load fuel) ≡ true
  unfolding collect_pages
  collect_pages-ends fuel h = collect_from-ends fuel 0 [] none (omega (arith, unseen_none known))
