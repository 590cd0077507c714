-- ===== src/Prelude/Every.antt =====
-- What holds of every item of a list, and how many items there are, through the list functions.
use mathlib.Core.Path.{◌≡◌, refl, ap, sym}
use mathlib.Core.Bool.{Bool}
use mathlib.Core.List.{List, [], ◌∷◌, ◌++◌, map, reverse, reverse_aux, Memᴰ, flat_map}
use mathlib.Core.Option.{some}
use Prim.Native.Nat.{ℕ, zero, suc, ◌+◌}
use native.Mathlib.Omega.{arith}
use mathlib.Core.Path.{subst}
use widget_demo.Prelude.Tests.{if◌then◌else◌, ltb}
use widget_demo.Prelude.Lists.{length, filter, count_if, All, take, head?}

module _ {ℓ κ} {A : Type ℓ} (P : A → Type κ) where
  pub All_of_mem : (l : List A) → ((x : A) → Memᴰ x l → P x) → All P l
  All_of_mem [] h = tt
  All_of_mem (x ∷ l) h = (h x (Memᴰ.head refl), All_of_mem l (λ y m. h y (Memᴰ.tail m)))

  pub All_mem : (l : List A) {x : A} → All P l → Memᴰ x l → P x
  All_mem [] h m = elim m [ ]
  All_mem (y ∷ l) h (Memᴰ.head e) = subst P (sym e) h.0
  All_mem (y ∷ l) h (Memᴰ.tail m) = All_mem l h.1 m

  pub All-take : (n : ℕ) (l : List A) → All P l → All P (take n l)
  All-take zero l h = tt
  All-take (suc n) [] h = tt
  All-take (suc n) (x ∷ l) h = (h.0, All-take n l h.1)

  All-reverse_aux : (l r : List A) → All P l → All P r → All P (reverse_aux l r)
  All-reverse_aux [] r h k = k
  All-reverse_aux (x ∷ l) r h k = All-reverse_aux l (x ∷ r) h.1 (h.0, k)

  pub All-reverse : (l : List A) → All P l → All P (reverse l)
  All-reverse l h = All-reverse_aux l [] h tt

  pub All-append : (l r : List A) → All P l → All P r → All P (l ++ r)
  All-append [] r h k = k
  All-append (x ∷ l) r h k = (h.0, All-append l r h.1 k)

module _ {ℓ κ μ} {A : Type ℓ} {B : Type κ} (f : A → B) (P : B → Type μ) where
  pub All-map : (l : List A) → All (λ x. P (f x)) l → All P (map f l)
  All-map [] h = tt
  All-map (x ∷ l) h = (h.0, All-map l h.1)

module _ {ℓ κ μ} {A : Type ℓ} {B : Type κ} (f : A → List B) (P : B → Type μ) where
  pub All-flat_map : (l : List A) → ((x : A) → Memᴰ x l → All P (f x)) → All P (flat_map f l)
  unfolding flat_map
  All-flat_map [] h = tt
  All-flat_map (x ∷ l) h =
      All-append P (f x) (flat_map f l) (h x (Memᴰ.head refl))
        (All-flat_map l (λ y m. h y (Memᴰ.tail m)))

pub mem-head? {ℓ} : {A : Type ℓ} (l : List A) {x : A} → head? l ≡ some x → Memᴰ x l
mem-head? [] h = absurd (cc)
mem-head? (y ∷ l) h = Memᴰ.head (cc)

pub length-map {ℓ κ} :
    {A : Type ℓ} {B : Type κ} (f : A → B) (l : List A) → length (map f l) ≡ length l
length-map f [] = refl
length-map f (x ∷ l) = ap suc (length-map f l)

module _ {ℓ} {A : Type ℓ} where
  length-reverse_aux : (l r : List A) → length (reverse_aux l r) ≡ length l + length r
  length-reverse_aux [] r = omega arith
  length-reverse_aux (x ∷ l) r = omega (arith, length-reverse_aux l (x ∷ r))

  pub length-reverse : (l : List A) → length (reverse l) ≡ length l
  length-reverse l = omega (arith, length-reverse_aux l [])

  pub length-filter : (p : A → Bool) (l : List A) → length (filter p l) ≡ count_if p l
  length-filter p [] = refl
  length-filter p (x ∷ l) = ground (arith, length-filter p l)

  pub length-take :
      (n : ℕ) (l : List A) → length (take n l) ≡ (if ltb (length l) n then length l else n)
  length-take zero l = ground arith
  length-take (suc n) [] = ground arith
  length-take (suc n) (x ∷ l) = ground (arith, length-take n l)
