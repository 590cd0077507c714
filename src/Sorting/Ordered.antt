-- ===== src/Sorting/Ordered.antt =====
-- Sorting by a consistent comparator: the result is in order, and sorting it again changes nothing.
use widget_demo.Prelude.{
  ◌≡◌, refl, ap, ◌∙◌, Bool, true, false, List, [], ◌∷◌, map, All, Bool-cases, inl, inr,
}
use widget_demo.Sorting.{insert, sort, All-insert}

pub record IsTotal {ℓ} {A : Type ℓ} (le : A → A → Bool) : Type ℓ where
  pub trans : (x y z : A) → le x y ≡ true → le y z ≡ true → le x z ≡ true
  pub total : (x y : A) → le x y ≡ false → le y x ≡ true

module _ {ℓ} {A : Type ℓ} (le : A → A → Bool) where
  abbrev pub IsSorted : List A → Type ℓ
  IsSorted [] = Unit
  IsSorted (x ∷ xs) = All (λ y. le x y ≡ true) xs × IsSorted xs

  pub sort-IsSorted_eq : (l : List A) → IsSorted l → sort le l ≡ l
  unfolding sort
  sort-IsSorted_eq [] h = refl
  sort-IsSorted_eq (x ∷ xs) h = ap (insert le x) (sort-IsSorted_eq xs h.1) ∙ front xs h.0
    where
      front : (l : List A) → All (λ y. le x y ≡ true) l → insert le x l ≡ x ∷ l
      front [] h = unfold insert in refl
      front (y ∷ ys) h = unfold insert in rw h.0

module _ {ℓ} {A : Type ℓ} (le : A → A → Bool) (o : IsTotal le) where
  above :
      (x y : A) (l : List A)
      → le x y ≡ true
      → All (λ z. le y z ≡ true) l
      → All (λ z. le x z ≡ true) l
  above x y [] h k = tt
  above x y (z ∷ l) h k = (o.trans x y z h k.0, above x y l h k.1)

  insert-IsSorted : (x : A) (l : List A) → IsSorted le l → IsSorted le (insert le x l)
  unfolding insert
  insert-IsSorted x [] h = (tt, tt)
  insert-IsSorted x (y ∷ ys) h = elim (Bool-cases (le x y)) [
    | inl first ↦ rw first ((first, above x y ys first h.0), h)
    | inr later ↦
        rw later (
          All-insert le (λ z. le y z ≡ true) x ys (o.total x y later) h.0,
          insert-IsSorted x ys h.1,
        )
  ]

  pub sort-IsSorted : (l : List A) → IsSorted le (sort le l)
  unfolding sort
  sort-IsSorted [] = tt
  sort-IsSorted (x ∷ xs) = insert-IsSorted x (sort le xs) (sort-IsSorted xs)

  pub sort_idem : (l : List A) → sort le (sort le l) ≡ sort le l
  sort_idem l = sort-IsSorted_eq le (sort le l) (sort-IsSorted l)

pub map_fixed {ℓ} : {A : Type ℓ} (f : A → A) (l : List A) → All (λ x. f x ≡ x) l → map f l ≡ l
map_fixed f [] h = refl
map_fixed f (x ∷ l) h = rw (h.0, map_fixed f l h.1)
