-- ===== src/Prelude/Lists.antt =====
-- Lists searched by Boolean tests: the rows of a table under a `where` clause, and JavaScript's
-- array methods.
use Prim.Native.Nat.{ℕ, zero, suc}
use mathlib.Core.Bool.{Bool, true, false, ◌&&◌, ◌||◌}
use mathlib.Core.Option.{Option, none, some}
use mathlib.Core.List.{List, [], ◌∷◌}
use widget_demo.Prelude.Tests.{if◌then◌else◌}

module _ {ℓ} {A : Type ℓ} where
  abbrev pub length : List A → ℕ
  length [] = 0
  length (x ∷ xs) = suc (length xs)

  abbrev pub find? : (A → Bool) → List A → Option A
  find? p [] = none
  find? p (x ∷ xs) = if p x then some x else find? p xs

  abbrev pub any : (A → Bool) → List A → Bool
  any p [] = false
  any p (x ∷ xs) = p x || any p xs

  abbrev pub all : (A → Bool) → List A → Bool
  all p [] = true
  all p (x ∷ xs) = p x && all p xs

  abbrev pub filter : (A → Bool) → List A → List A
  filter p [] = []
  filter p (x ∷ xs) = let rest = filter p xs in if p x then x ∷ rest else rest

  abbrev pub count_if : (A → Bool) → List A → ℕ
  count_if p [] = 0
  count_if p (x ∷ xs) = let rest = count_if p xs in if p x then suc rest else rest

  -- `updateMany`, and `update` where the key of the clause is unique
  abbrev pub update_where : (A → Bool) → (A → A) → List A → List A
  update_where p f [] = []
  update_where p f (x ∷ xs) = (if p x then f x else x) ∷ update_where p f xs

  -- `upsert`
  abbrev pub upsert_where : (A → Bool) → A → (A → A) → List A → List A
  upsert_where p fresh f [] = fresh ∷ []
  upsert_where p fresh f (x ∷ xs) = if p x then f x ∷ xs else x ∷ upsert_where p fresh f xs

  abbrev pub take : ℕ → List A → List A
  take zero l = []
  take (suc n) [] = []
  take (suc n) (x ∷ l) = x ∷ take n l

  abbrev pub head? : List A → Option A
  head? [] = none
  head? (x ∷ xs) = some x

module _ {ℓ κ} {A : Type ℓ} (P : A → Type κ) where
  abbrev pub All : List A → Type κ
  All [] = Unit
  All (x ∷ xs) = P x × All xs

module _ {ℓ} {A : Type ℓ} where
  -- `new Map(entries).get(key)`: of the entries with the key the last one counts
  abbrev pub find_last? : (A → Bool) → List A → Option A
  find_last? p [] = none
  find_last? p (x ∷ xs) = elim (find_last? p xs) [
    | some y ↦ some y
    | none ↦ if p x then some x else none
  ]

  -- `[...new Set(items)]`: the first of equal items stays
  abbrev pub dedupe : (A → A → Bool) → List A → List A
  dedupe same [] = []
  dedupe same (x ∷ xs) = x ∷ filter (λ y. if same x y then false else true) (dedupe same xs)

  abbrev pub filter_some : List (Option A) → List A
  filter_some [] = []
  filter_some (none ∷ xs) = filter_some xs
  filter_some (some x ∷ xs) = x ∷ filter_some xs
