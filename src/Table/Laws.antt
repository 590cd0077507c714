-- ===== src/Table/Laws.antt =====
-- The laws of tables, in the form that `simp` and `ground` use.
use widget_demo.Prelude.{
  ◌≡◌, refl, none, some, [], ◌∷◌, arith, if◌then◌else◌, Bool-cases, true, false, inl, inr, ◌≢◌,
}
use widget_demo.Table.{Eq, ◌=?◌, Table, lookup, insert, erase}

module _ {K : Type 0} ⦃e : Eq K⦄ where
  pub beq_refl : (k : K) → (k =? k) ≡ true
  beq_refl k = (e.beq_iff k k).1 refl

  pub beq_ne : (k j : K) → k ≢ j → (k =? j) ≡ false
  beq_ne k j h = elim (Bool-cases (k =? j)) [
    | inl same ↦ absurd (h ((e.beq_iff k j).0 same))
    | inr other ↦ other
  ]

module _ {K V : Type 0} ⦃e : Eq K⦄ where
  pub lookup-insert :
      (k j : K) (v : V) (t : Table K V)
      → lookup j (insert k v t) ≡ (if k =? j then some v else lookup j t)
  unfolding lookup insert
  lookup-insert k j v [] = refl
  lookup-insert k j v ((i, w) ∷ t) =
      ground (arith, e.beq_iff k j, e.beq_iff i k, e.beq_iff i j, lookup-insert k j v t)

  pub lookup-erase :
      (k j : K) (t : Table K V) → lookup j (erase k t) ≡ (if k =? j then none else lookup j t)
  unfolding lookup erase
  lookup-erase k j [] = ground arith
  lookup-erase k j ((i, w) ∷ t) =
      ground (arith, e.beq_iff k j, e.beq_iff i k, e.beq_iff i j, lookup-erase k j t)

  pub lookup-insert_self : (k : K) (v : V) (t : Table K V) → lookup k (insert k v t) ≡ some v
  lookup-insert_self k v t = rw (lookup-insert, beq_refl)

  pub lookup-insert_ne :
      (k j : K) (v : V) (t : Table K V) → k ≢ j → lookup j (insert k v t) ≡ lookup j t
  lookup-insert_ne k j v t h = rw (lookup-insert, beq_ne k j h)

  pub lookup-erase_self : (k : K) (t : Table K V) → lookup k (erase k t) ≡ none
  lookup-erase_self k t = rw (lookup-erase, beq_refl)

pub ruleset table_laws = (lookup-insert, lookup-erase)
