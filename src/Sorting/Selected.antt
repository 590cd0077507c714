-- ===== src/Sorting/Selected.antt =====
-- The first items of a sorted list, and the others.
use mathlib.Core.List.{Perm, perm_middle, reverse, reverse_aux}
use mathlib.Core.List.Perm
use widget_demo.Prelude.{
  ℕ, zero, suc, ◌+◌, ◌≡◌, refl, sym, ap, ◌∙◌, length, arith, Bool, true, not, List, [], ◌∷◌, ◌++◌,
  map, filter, take, All, Bool-cases, inl, inr,
}
use widget_demo.Prelude.Every.{All-take, length-reverse}
use widget_demo.Sorting.Ordered.{IsSorted}

module _ {ℓ} {A : Type ℓ} where
  abbrev pub drop : ℕ → List A → List A
  drop zero l = l
  drop (suc n) [] = []
  drop (suc n) (x ∷ l) = drop n l

  pub take-drop : (n : ℕ) (l : List A) → take n l ++ drop n l ≡ l
  take-drop zero l = refl
  take-drop (suc n) [] = refl
  take-drop (suc n) (x ∷ l) = ap (λ k. x ∷ k) (take-drop n l)

  reverse_aux-perm : (l r : List A) → Perm (reverse_aux l r) (l ++ r)
  reverse_aux-perm [] r = Perm.rfl
  reverse_aux-perm (x ∷ l) r = Perm.trans (reverse_aux-perm l (x ∷ r)) (perm_middle l r)

  pub append-nil : (l : List A) → l ++ [] ≡ l
  append-nil [] = refl
  append-nil (x ∷ l) = ap (λ k. x ∷ k) (append-nil l)

  pub reverse-perm : (l r : List A) → Perm (reverse l ++ r) (l ++ r)
  reverse-perm l r = Perm.append_right r (rw (append-nil l) at (reverse_aux-perm l []))

  length-append : (l r : List A) → length (l ++ r) ≡ length l + length r
  length-append [] r = omega arith
  length-append (x ∷ l) r = omega (arith, length-append l r)

  pub length-take-drop : (n : ℕ) (l : List A) → length (reverse (take n l) ++ drop n l) ≡ length l
  length-take-drop n l =
      length-append (reverse (take n l)) (drop n l)
      ∙ ap (λ k. k + length (drop n l)) (length-reverse (take n l))
      ∙ sym (length-append (take n l) (drop n l))
      ∙ ap length (take-drop n l)

  -- The items that pass a test and those that do not are all items.
  pub filter-split : (p : A → Bool) (l : List A) → Perm (filter p l ++ filter (λ x. not (p x)) l) l
  filter-split p [] = Perm.rfl
  filter-split p (x ∷ l) = elim (Bool-cases (p x)) [
    | inl passed ↦ rw passed (Perm.cons x (filter-split p l))
    | inr failed ↦ rw failed (
        Perm.trans (perm_middle (filter p l) (filter (λ y. not (p y)) l))
          (Perm.cons x (filter-split p l)))
  ]

module _ {ℓ κ} {A : Type ℓ} {B : Type κ} (f : A → B) where
  map-reverse_aux : (l r : List A) → map f (reverse_aux l r) ≡ reverse_aux (map f l) (map f r)
  map-reverse_aux [] r = refl
  map-reverse_aux (x ∷ l) r = map-reverse_aux l (x ∷ r)

  pub map-reverse : (l : List A) → map f (reverse l) ≡ reverse (map f l)
  map-reverse l = map-reverse_aux l []

module _ {ℓ κ μ} {A : Type ℓ} (P : A → Type κ) (Q : A → Type μ) where
  pub All-imp : ((x : A) → P x → Q x) → (l : List A) → All P l → All Q l
  All-imp h [] k = tt
  All-imp h (x ∷ l) k = (h x k.0, All-imp h l k.1)

  All-and : (l : List A) → All P l → All Q l → All (λ x. P x × Q x) l
  All-and [] h k = tt
  All-and (x ∷ l) h k = ((h.0, k.0), All-and l h.1 k.1)

All-Unit {ℓ} : {A : Type ℓ} (l : List A) → All {ℓ, 0} (λ x. Unit) l
All-Unit [] = tt
All-Unit (x ∷ l) = (tt, All-Unit l)

module _ {ℓ κ} {A : Type ℓ} (P : A → Type κ) where
  pub All-drop : (n : ℕ) (l : List A) → All P l → All P (drop n l)
  All-drop zero l h = h
  All-drop (suc n) [] h = tt
  All-drop (suc n) (x ∷ l) h = All-drop n l h.1

module _ {ℓ} {A : Type ℓ} (le : A → A → Bool) where
  pub take-IsSorted : (n : ℕ) (l : List A) → IsSorted le l → IsSorted le (take n l)
  take-IsSorted zero l h = tt
  take-IsSorted (suc n) [] h = tt
  take-IsSorted (suc n) (x ∷ l) h = (All-take (λ y. le x y ≡ true) n l h.0, take-IsSorted n l h.1)

  -- In a sorted list no item that is taken comes after one that is not.
  pub take_before :
      (n : ℕ) (l : List A)
      → IsSorted le l
      → All (λ r. All (λ y. le y r ≡ true) (take n l)) (drop n l)
  take_before zero l h = All-Unit l
  take_before (suc n) [] h = tt
  take_before (suc n) (x ∷ l) h =
      All-and (λ r. le x r ≡ true) (λ r. All (λ y. le y r ≡ true) (take n l)) (drop n l)
        (All-drop (λ r. le x r ≡ true) n l h.0) (take_before n l h.1)

module _ {ℓ} {A : Type ℓ} (le : A → A → Bool) where
  reverse_aux-IsSorted :
      (l r : List A)
      → IsSorted (λ a b. le b a) l
      → IsSorted le r
      → All (λ x. All (λ y. le x y ≡ true) r) l
      → IsSorted le (reverse_aux l r)
  reverse_aux-IsSorted [] r h k before = k
  reverse_aux-IsSorted (x ∷ l) r h k before =
      reverse_aux-IsSorted l (x ∷ r) h.1 (before.0, k)
        (All-and (λ y. le y x ≡ true) (λ y. All (λ z. le y z ≡ true) r) l h.0 before.1)

  -- A list that is sorted backwards is sorted when it is reversed.
  pub reverse-IsSorted : (l : List A) → IsSorted (λ a b. le b a) l → IsSorted le (reverse l)
  reverse-IsSorted l h = reverse_aux-IsSorted l [] h tt (All-Unit l)
