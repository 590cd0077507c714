-- ===== src/Ranking/Order.antt =====
-- What the ranking needs of the comparison of values, and the order of the sorted rows.
use widget_demo.Prelude.{
  ℕ, ◌≡◌, refl, true, false, List, [], ◌∷◌, arith, if◌then◌else◌, count_if, All, Bool-cases, inl,
  inr,
}
use widget_demo.Sorting.{insert, sort, All-insert}
use widget_demo.Ranking.{Row, Comparison, comes_first}

-- Finite numbers under `<` and `===`: what neither is less than the other is the same.
pub record IsOrder {V : Type 0} (c : Comparison V) : Type 0 where
  pub asym : (a b : V) → c.lt a b ≡ true → c.lt b a ≡ false
  pub cotrans : (x y z : V) → c.lt x z ≡ true → c.lt y z ≡ false → c.lt x y ≡ true
  pub same_lem :
      (a b : V) → c.same a b ≡ (if c.lt a b then false else if c.lt b a then false else true)

module _ {V : Type 0} (c : Comparison V) where
  -- No row of the list has a greater value than `v`.
  abbrev pub IsTop : V → List (Row V) → Type 0
  IsTop v = All (λ r. c.lt v r.value ≡ false)

  abbrev pub IsDescending : List (Row V) → Type 0
  IsDescending [] = Unit
  IsDescending (x ∷ xs) = IsTop x.value xs × IsDescending xs

  -- how many rows beat the value `v`
  abbrev pub count_above : V → List (Row V) → ℕ
  count_above v = count_if (λ r. c.lt v r.value)

  pub count_above_top : (v : V) (l : List (Row V)) → IsTop v l → count_above v l ≡ 0
  count_above_top v [] t = refl
  count_above_top v (x ∷ xs) t = ground (arith, count_above_top v xs t.1)

module _ {V : Type 0} (c : Comparison V) (o : IsOrder c) where
  pub lt_irrefl : (a : V) → c.lt a a ≡ false
  lt_irrefl a = ground (arith, o.asym a a)

  IsTop-mono : (v w : V) (l : List (Row V)) → c.lt v w ≡ false → IsTop c w l → IsTop c v l
  IsTop-mono v w [] h t = tt
  IsTop-mono v w (x ∷ xs) h t =
      (ground (arith, o.cotrans v w x.value, t.0), IsTop-mono v w xs h t.1)

  insert-IsDescending :
      (x : Row V) (l : List (Row V))
      → IsDescending c l
      → IsDescending c (insert (comes_first c) x l)
  unfolding insert comes_first
  insert-IsDescending x [] d = (tt, tt)
  insert-IsDescending x (y ∷ ys) d = elim (Bool-cases (comes_first c x y)) [
    | inl first ↦
        let below : c.lt x.value y.value ≡ false = ground (arith, o.asym y.value x.value) in
        rw first ((below, IsTop-mono x.value y.value ys below d.0), d)
    | inr later ↦
        let below : c.lt y.value x.value ≡ false = ground arith in
        rw later (
          All-insert (comes_first c) (λ (r : Row V). c.lt y.value r.value ≡ false) x ys below d.0,
          insert-IsDescending x ys d.1,
        )
  ]

  pub sort-IsDescending : (l : List (Row V)) → IsDescending c (sort (comes_first c) l)
  unfolding sort
  sort-IsDescending [] = tt
  sort-IsDescending (x ∷ xs) =
      insert-IsDescending x (sort (comes_first c) xs) (sort-IsDescending xs)
