-- ===== src/Sorting.antt =====
-- `Array.prototype.sort` with a comparator, as stable insertion: `le a b` says that the comparator
-- does not put `b` before `a`. Every stable sort by a consistent comparator returns this list.
pub mod Ordered
pub mod Selected
use mathlib.Core.List.{Perm, Memᴰ}
use mathlib.Core.List.Memᴰ.{cases_cons}
use mathlib.Core.List.Perm
use widget_demo.Prelude.{
  ◌≡◌, refl, Bool, List, [], ◌∷◌, arith, if◌then◌else◌, count_if, All, length, suc, ◌⊎◌, Bool-cases,
  inl, inr,
}

module _ {ℓ} {A : Type ℓ} (le : A → A → Bool) where
  unfoldable pub insert : A → List A → List A
  insert x [] = x ∷ []
  insert x (y ∷ ys) = if le x y then x ∷ y ∷ ys else y ∷ insert x ys

  unfoldable pub sort : List A → List A
  unfolding insert
  sort [] = []
  sort (x ∷ xs) = insert x (sort xs)

  insert-perm : (x : A) (l : List A) → Perm (insert x l) (x ∷ l)
  unfolding insert
  insert-perm x [] = Perm.rfl
  insert-perm x (y ∷ ys) = elim (Bool-cases (le x y)) [
    | inl first ↦ rw first Perm.rfl
    | inr later ↦ rw later (Perm.trans (Perm.cons y (insert-perm x ys)) (Perm.swap x y ys))
  ]

  -- Sorting rearranges.
  pub sort-perm : (l : List A) → Perm (sort l) l
  unfolding sort
  sort-perm [] = Perm.rfl
  sort-perm (x ∷ xs) = Perm.trans (insert-perm x (sort xs)) (Perm.cons x (sort-perm xs))

  count_if-insert :
      (p : A → Bool) (x : A) (l : List A) → count_if p (insert x l) ≡ count_if p (x ∷ l)
  unfolding insert
  count_if-insert p x [] = refl
  count_if-insert p x (y ∷ ys) = ground (arith, count_if-insert p x ys)

  pub count_if-sort : (p : A → Bool) (l : List A) → count_if p (sort l) ≡ count_if p l
  unfolding sort
  count_if-sort p [] = refl
  count_if-sort p (x ∷ xs) = ground (arith, count_if-insert p x (sort xs), count_if-sort p xs)

module _ {ℓ κ} {A : Type ℓ} (le : A → A → Bool) (P : A → Type κ) where
  pub All-insert : (x : A) (l : List A) → P x → All P l → All P (insert le x l)
  unfolding insert
  All-insert x [] p h = (p, tt)
  All-insert x (y ∷ ys) p h = elim (Bool-cases (le x y)) [
    | inl first ↦ rw first (p, h)
    | inr later ↦ rw later (h.0, All-insert x ys p h.1)
  ]

  pub All-sort : (l : List A) → All P l → All P (sort le l)
  unfolding sort
  All-sort [] h = tt
  All-sort (x ∷ xs) h = All-insert x (sort le xs) h.0 (All-sort xs h.1)

module _ {ℓ} {A : Type ℓ} (le : A → A → Bool) where
  length-insert : (x : A) (l : List A) → length (insert le x l) ≡ suc (length l)
  unfolding insert
  length-insert x [] = refl
  length-insert x (y ∷ ys) = ground (arith, length-insert x ys)

  pub length-sort : (l : List A) → length (sort le l) ≡ length l
  unfolding sort
  length-sort [] = refl
  length-sort (x ∷ xs) = omega (arith, length-insert x (sort le xs), length-sort xs)

  mem-insert : (y : A) (l : List A) {x : A} → (x ≡ y) ⊎ Memᴰ x l → Memᴰ x (insert le y l)
  unfolding insert
  mem-insert y [] (inl e) = Memᴰ.head e
  mem-insert y [] (inr m) = elim m [ ]
  mem-insert y (z ∷ l) h = elim (Bool-cases (le y z)) [
    | inl first ↦ rw first (elim h [ inl e ↦ Memᴰ.head e | inr m ↦ Memᴰ.tail m ])
    | inr later ↦ rw later (elim h [
      | inl e ↦ Memᴰ.tail (mem-insert y l (inl e))
      | inr m ↦ elim (cases_cons m) [
        | inl e ↦ Memᴰ.head e
        | inr n ↦ Memᴰ.tail (mem-insert y l (inr n))
      ]
    ])
  ]

  pub mem-sort : (l : List A) {x : A} → Memᴰ x l → Memᴰ x (sort le l)
  unfolding sort
  mem-sort [] m = elim m [ ]
  mem-sort (y ∷ l) (Memᴰ.head e) = mem-insert y (sort le l) (inl e)
  mem-sort (y ∷ l) (Memᴰ.tail m) = mem-insert y (sort le l) (inr (mem-sort l m))

  mem_of_insert : (y : A) (l : List A) {x : A} → Memᴰ x (insert le y l) → (x ≡ y) ⊎ Memᴰ x l
  unfolding insert
  mem_of_insert y [] m = cases_cons m
  mem_of_insert y (z ∷ l) m = elim (Bool-cases (le y z)) [
    | inl first ↦ cases_cons (rw first at m)
    | inr later ↦ elim (cases_cons (rw later at m)) [
      | inl e ↦ inr (Memᴰ.head e)
      | inr n ↦ elim (mem_of_insert y l n) [ inl e ↦ inl e | inr k ↦ inr (Memᴰ.tail k) ]
    ]
  ]

  pub mem_of_sort : (l : List A) {x : A} → Memᴰ x (sort le l) → Memᴰ x l
  unfolding sort
  mem_of_sort [] m = elim m [ ]
  mem_of_sort (y ∷ l) m = elim (mem_of_insert y (sort le l) m) [
    | inl e ↦ Memᴰ.head e
    | inr n ↦ Memᴰ.tail (mem_of_sort l n)
  ]
