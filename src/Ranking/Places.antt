-- ===== src/Ranking/Places.antt =====
-- The ranks that the loop hands out are standard competition ranks.
use mathlib.Core.List.{Perm, Memᴰ}
use widget_demo.Prelude.Search.{mem-map, mem-map_sound}
use widget_demo.Prelude.{
  ℕ, ◌+◌, ◌≡◌, refl, ap, false, Option, none, some, List, [], ◌∷◌, map, arith, if◌then◌else◌, All,
  ◌∙◌,
}
use widget_demo.Sorting.{sort, sort-perm, count_if-sort, mem-sort, mem_of_sort}
use widget_demo.Ranking.{
  Row, RankedRow, Comparison, comes_first, is_tie, rank_from, competition_ranks,
}
use widget_demo.Ranking.Order.{
  IsOrder, lt_irrefl, IsTop, IsDescending, sort-IsDescending, count_above, count_above_top,
}

abbrev pub rows_of : {V : Type 0} → List (RankedRow V) → List (Row V)
rows_of = map (λ r. r.row)

module _ {V : Type 0} (c : Comparison V) (o : IsOrder c) where
  -- What the loop knows after the rows before `index`: `above v` of them beat the value `v`.
  abbrev Knows : Option V → ℕ → ℕ → (V → ℕ) → Type 0
  Knows none rank index above = (index ≡ 0) × ((v : V) → above v ≡ 0)
  Knows (some p) rank index above =
      (v : V) → c.lt p v ≡ false → 1 + above v ≡ (if c.lt v p then index + 1 else rank)

  abbrev IsBelow : Option V → List (Row V) → Type 0
  IsBelow none l = Unit
  IsBelow (some p) l = IsTop c p l

  abbrev and_above : (V → ℕ) → V → V → ℕ
  and_above above w v = above v + (if c.lt v w then 1 else 0)

  Knows-rank :
      (previous : Option V) (rank index : ℕ) (above : V → ℕ) (w : V)
      → Knows previous rank index above
      → IsBelow previous (record { id = ""; value = w } ∷ [])
      → (if is_tie c previous w then rank else index + 1) ≡ 1 + above w
  unfolding is_tie
  Knows-rank none rank index above w k b = omega (arith, k.0, k.1 w)
  Knows-rank (some p) rank index above w k b = ground (arith, k w, o.same_lem p w)

  Knows-step :
      (previous : Option V) (rank index : ℕ) (above : V → ℕ) (w : V) (rank' : ℕ)
      → Knows previous rank index above
      → IsBelow previous (record { id = ""; value = w } ∷ [])
      → rank' ≡ 1 + above w
      → Knows (some w) rank' (index + 1) (and_above above w)
  Knows-step none rank index above w rank' k b e = λ v h. ground (arith, k.1 v, k.1 w, k.0)
  Knows-step (some p) rank index above w rank' k b e = λ v h. ground (
    arith,
    k v,
    k w,
    o.cotrans v p w,
    o.asym v p,
    o.cotrans v w p,
    o.cotrans w v p,
    b.0,
    o.cotrans p w v,
    o.asym w p,
  )

  -- the conclusion for the rows that are left
  abbrev IsPlaced : (V → ℕ) → List (Row V) → List (RankedRow V) → Type 0
  IsPlaced above l = All (λ (r : RankedRow V). r.rank ≡ 1 + above r.value + count_above c r.value l)

  IsPlaced-cons :
      (above : V → ℕ) (w : Row V) (l : List (Row V)) (rs : List (RankedRow V))
      → IsPlaced (and_above above w.value) l rs
      → IsPlaced above (w ∷ l) rs
  IsPlaced-cons above w l [] h = tt
  IsPlaced-cons above w l (r ∷ rs) h = (ground arith, IsPlaced-cons above w l rs h.1)

  rank_from-IsPlaced :
      (previous : Option V) (rank index : ℕ) (above : V → ℕ) (l : List (Row V))
      → Knows previous rank index above
      → IsBelow previous l
      → IsDescending c l
      → IsPlaced above l (rank_from c previous rank index l)
  unfolding rank_from
  rank_from-IsPlaced previous rank index above [] k b d = tt
  rank_from-IsPlaced previous rank index above (w ∷ l) k b d =
      let rank' = if is_tie c previous w.value then rank else index + 1 in
      let e : rank' ≡ 1 + above w.value =
        Knows-rank previous rank index above w.value k (below previous b) in
      (
        ground (arith, count_above_top c w.value l d.0, lt_irrefl c o w.value, e),
        IsPlaced-cons above w l (rank_from c (some w.value) rank' (index + 1) l) (
            rank_from-IsPlaced (some w.value) rank' (index + 1) (and_above above w.value) l
              (Knows-step previous rank index above w.value rank' k (below previous b) e) d.0 d.1),
      )
    where
      below :
          (q : Option V) → IsBelow q (w ∷ l) → IsBelow q (record { id = ""; value = w.value } ∷ [])
      below none t = tt
      below (some p) t = (t.0, tt)

  rows_of-rank_from :
      (previous : Option V) (rank index : ℕ) (l : List (Row V))
      → rows_of (rank_from c previous rank index l) ≡ l
  unfolding rank_from
  rows_of-rank_from previous rank index [] = refl
  rows_of-rank_from previous rank index (w ∷ l) = ap (◌∷◌ w) (
      rows_of-rank_from (some w.value) (if is_tie c previous w.value then rank else index + 1)
        (index + 1) l)

  -- Every row gets one more than the number of rows of the input with a greater value, and the
  -- rows of the result are those of the input, rearranged.
  pub competition_ranks-count_above :
      (values : List (Row V))
      → All
          (λ (r : RankedRow V). r.rank ≡ 1 + count_above c r.value values)
          (competition_ranks c values)
        × Perm (rows_of (competition_ranks c values)) values
  unfolding competition_ranks
  competition_ranks-count_above values = (
    counted (rank_from c none 0 0 (sort (comes_first c) values)) (
        rank_from-IsPlaced none 0 0 (λ v. 0) (sort (comes_first c) values) (refl, λ v. refl) tt
          (sort-IsDescending c o values)),
    rw (rows_of-rank_from none 0 0 (sort (comes_first c) values))
        (sort-perm (comes_first c) values),
  )
    where
      counted :
          (rs : List (RankedRow V))
          → IsPlaced (λ v. 0) (sort (comes_first c) values) rs
          → All (λ (r : RankedRow V). r.rank ≡ 1 + count_above c r.value values) rs
      counted [] h = tt
      counted (r ∷ rs) h = (
        h.0
            ∙ ap (λ (n : ℕ). 1 + 0 + n)
                (count_if-sort (comes_first c) (λ (w : Row V). c.lt r.value w.value) values),
        counted rs h.1,
      )

  -- the ranked rows are rows of the input, and every row of the input is ranked
  pub mem-ranked :
      (values : List (Row V)) {r : RankedRow V}
      → Memᴰ r (competition_ranks c values)
      → Memᴰ r.row values
  unfolding competition_ranks
  mem-ranked values {r} m =
      let mapped : Memᴰ r.row (rows_of (rank_from c none 0 0 (sort (comes_first c) values))) =
        mem-map (λ (q : RankedRow V). q.row) (rank_from c none 0 0 (sort (comes_first c) values))
          m in
      mem_of_sort (comes_first c) values
        (rw (rows_of-rank_from none 0 0 (sort (comes_first c) values)) at mapped)

  pub ranked-mem :
      (values : List (Row V)) {w : Row V}
      → Memᴰ w values
      → (r : RankedRow V) × Memᴰ r (competition_ranks c values) × (w ≡ r.row)
  unfolding competition_ranks
  ranked-mem values {w} m =
      let sorted : Memᴰ w (rows_of (rank_from c none 0 0 (sort (comes_first c) values))) =
        rw (rows_of-rank_from none 0 0 (sort (comes_first c) values))
          (mem-sort (comes_first c) values m) in
      mem-map_sound (λ (r : RankedRow V). r.row) _ sorted
