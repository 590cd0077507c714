-- ===== src/Ranking.antt =====
-- backend/src/results/ranking.ts
pub mod Order
pub mod Places
mod Tests
use widget_demo.Prelude.{
  ℕ, zero, ◌+◌, String, Bool, true, false, Option, none, some, List, [], ◌∷◌, if◌then◌else◌,
}
use widget_demo.Sorting.{sort}

pub record Row (V : Type 0) : Type 0 where
  pub id : String
  pub value : V

pub record RankedRow (V : Type 0) : Type 0 where
  pub row : Row V
  pub open row use *
  pub rank : ℕ

-- Values are compared by `<` (the sign of `b.value - a.value`) and `===`, ids by `localeCompare`.
pub record Comparison (V : Type 0) : Type 0 where
  pub lt : V → V → Bool
  pub same : V → V → Bool
  pub locale_le : String → String → Bool

module _ {V : Type 0} (c : Comparison V) where
  -- the comparator does not put `b` first
  unfoldable pub comes_first : Row V → Row V → Bool
  comes_first a b =
      if c.lt b.value a.value
      then true
      else if c.lt a.value b.value
      then false
      else c.locale_le a.id b.id

  -- `previousValue === row.value`, where `previousValue` starts as `undefined`
  unfoldable pub is_tie : Option V → V → Bool
  is_tie none value = false
  is_tie (some previous) value = c.same previous value

  -- the `map`, over the rows that are left; `index` counts the rows before them
  unfoldable pub rank_from : Option V → ℕ → ℕ → List (Row V) → List (RankedRow V)
  unfolding is_tie
  rank_from previous_value previous_rank index [] = []
  rank_from previous_value previous_rank index (row ∷ rest) =
      let rank = if is_tie previous_value row.value then previous_rank else index + 1 in
      record { row = row; rank = rank } ∷ rank_from (some row.value) rank (index + 1) rest

  unfoldable pub competition_ranks : List (Row V) → List (RankedRow V)
  unfolding rank_from comes_first
  competition_ranks values = rank_from none 0 0 (sort comes_first values)
