-- ===== src/Prelude/Search.antt =====
-- What a search in a list tells of the list: membership as the library's family `Memᴰ`.
use mathlib.Core.Path.{◌≡◌, refl, sym, ◌∙◌, ap}
use mathlib.Core.Logic.{inl, inr, ◌↔◌}
use mathlib.Core.Bool.{Bool, true, false}
use mathlib.Core.Option.{Option, none, some}
use mathlib.Core.List.{List, [], ◌∷◌, map, Memᴰ}
use mathlib.Core.List.Memᴰ.{cases_cons}
use native.Mathlib.Omega.{arith}
use widget_demo.Prelude.Tests.{Bool-cases, Option-cases, if◌then◌else◌}
use widget_demo.Prelude.Lists.{find?, find_last?, filter, any, dedupe, filter_some}

module _ {ℓ} {A : Type ℓ} (p : A → Bool) where
  pub filter_sound : (l : List A) {x : A} → Memᴰ x (filter p l) → (p x ≡ true) × Memᴰ x l
  filter_sound [] m = elim m [ ]
  filter_sound (y ∷ l) m = elim (Bool-cases (p y)) [
    | inl keep ↦ elim (cases_cons (rw keep at m)) [
      | inl e ↦ (ap p e ∙ keep, Memᴰ.head e)
      | inr n ↦ let (e, k) = filter_sound l n in (e, Memᴰ.tail k)
    ]
    | inr drop ↦ let (e, n) = filter_sound l (rw drop at m) in (e, Memᴰ.tail n)
  ]

  pub any_sound : (l : List A) → any p l ≡ true → (x : A) × Memᴰ x l × (p x ≡ true)
  any_sound [] h = absurd (cc)
  any_sound (y ∷ l) h = elim (Bool-cases (p y)) [
    | inl here ↦ (y, Memᴰ.head refl, here)
    | inr not_here ↦ let (x, m, e) = any_sound l (rw not_here at h) in (x, Memᴰ.tail m, e)
  ]

  pub any_of_mem : (l : List A) {x : A} → Memᴰ x l → p x ≡ true → any p l ≡ true
  any_of_mem [] m h = elim m [ ]
  any_of_mem (y ∷ l) (Memᴰ.head e) h = ground (arith, ap p e)
  any_of_mem (y ∷ l) (Memᴰ.tail m) h = ground (arith, any_of_mem l m h)

  pub find_last?_sound : (l : List A) {x : A} → find_last? p l ≡ some x → (p x ≡ true) × Memᴰ x l
  find_last?_sound [] h = absurd (cc)
  find_last?_sound (y ∷ l) {x} h = elim (Option-cases (find_last? p l)) [
    | inr (z, later) ↦
        let same : z ≡ x = ground arith in
        let (e, m) = find_last?_sound l (later ∙ ap some same) in (e, Memᴰ.tail m)
    | inl last ↦ elim (Bool-cases (p y)) [
      | inl here ↦ let same : x ≡ y = ground arith in (ap p same ∙ here, Memᴰ.head same)
      | inr missed ↦ absurd (ground arith)
    ]
  ]

  pub find?_sound : (l : List A) {x : A} → find? p l ≡ some x → (p x ≡ true) × Memᴰ x l
  find?_sound [] h = absurd (cc)
  find?_sound (y ∷ l) {x} h = elim (Bool-cases (p y)) [
    | inl here ↦ let same : x ≡ y = ground arith in (ap p same ∙ here, Memᴰ.head same)
    | inr missed ↦ let (e, m) = find?_sound l (rw missed at h) in (e, Memᴰ.tail m)
  ]

  pub find?-none : (l : List A) {x : A} → find? p l ≡ none → Memᴰ x l → p x ≡ false
  find?-none [] h m = elim m [ ]
  find?-none (y ∷ l) h (Memᴰ.head e) = elim (Bool-cases (p y)) [
    | inl here ↦ absurd (cc (rw here at h))
    | inr missed ↦ ap p e ∙ missed
  ]
  find?-none (y ∷ l) h (Memᴰ.tail m) = elim (Bool-cases (p y)) [
    | inl here ↦ absurd (cc (rw here at h))
    | inr missed ↦ find?-none l (rw missed at h) m
  ]

  pub any-false : (l : List A) {x : A} → any p l ≡ false → Memᴰ x l → p x ≡ false
  any-false l {x} h m = elim (Bool-cases (p x)) [
    | inl e ↦ absurd (cc (any_of_mem l m e))
    | inr e ↦ e
  ]

module _ {ℓ κ} {A : Type ℓ} {B : Type κ} (f : A → B) where
  pub mem-map_sound : (l : List A) {y : B} → Memᴰ y (map f l) → (x : A) × Memᴰ x l × (y ≡ f x)
  mem-map_sound [] m = elim m [ ]
  mem-map_sound (x ∷ l) (Memᴰ.head e) = (x, Memᴰ.head refl, e)
  mem-map_sound (x ∷ l) (Memᴰ.tail m) = let (z, n, e) = mem-map_sound l m in (z, Memᴰ.tail n, e)

module _ {ℓ} {A : Type ℓ} (p : A → Bool) where
  pub filter-complete : (l : List A) {x : A} → Memᴰ x l → p x ≡ true → Memᴰ x (filter p l)
  filter-complete [] m h = elim m [ ]
  filter-complete (y ∷ l) (Memᴰ.head e) h = rw (ap p (sym e) ∙ h) (Memᴰ.head e)
  filter-complete (y ∷ l) (Memᴰ.tail m) h = elim (Bool-cases (p y)) [
    | inl keep ↦ rw keep (Memᴰ.tail (filter-complete l m h))
    | inr drop ↦ rw drop (filter-complete l m h)
  ]

-- Every item is in the set that is made of the items.
pub dedupe-complete {ℓ} :
    {A : Type ℓ} (same : A → A → Bool) (same_iff : (a b : A) → (same a b ≡ true) ↔ (a ≡ b))
    (l : List A) {x : A}
    → Memᴰ x l
    → Memᴰ x (dedupe same l)
dedupe-complete same same_iff [] m = elim m [ ]
dedupe-complete same same_iff (y ∷ l) (Memᴰ.head e) = Memᴰ.head e
dedupe-complete same same_iff (y ∷ l) {x} (Memᴰ.tail m) = elim (Bool-cases (same y x)) [
  | inl here ↦ Memᴰ.head (sym ((same_iff y x).0 here))
  | inr other ↦ Memᴰ.tail (
      filter-complete (λ z. if same y z then false else true) (dedupe same l)
        (dedupe-complete same same_iff l m) (rw other))
]

pub mem-map {ℓ κ} :
    {A : Type ℓ} {B : Type κ} (f : A → B) (l : List A) {x : A} → Memᴰ x l → Memᴰ (f x) (map f l)
mem-map f [] m = elim m [ ]
mem-map f (y ∷ l) (Memᴰ.head e) = Memᴰ.head (ap f e)
mem-map f (y ∷ l) (Memᴰ.tail m) = Memᴰ.tail (mem-map f l m)

pub mem-filter_some {ℓ} :
    {A : Type ℓ} (l : List (Option A)) {x : A} → Memᴰ (some x) l → Memᴰ x (filter_some l)
mem-filter_some [] m = elim m [ ]
mem-filter_some (none ∷ l) (Memᴰ.head e) = absurd (cc)
mem-filter_some (none ∷ l) (Memᴰ.tail m) = mem-filter_some l m
mem-filter_some (some y ∷ l) (Memᴰ.head e) = Memᴰ.head (cc)
mem-filter_some (some y ∷ l) (Memᴰ.tail m) = Memᴰ.tail (mem-filter_some l m)

pub mem-filter_some_sound {ℓ} :
    {A : Type ℓ} (l : List (Option A)) {x : A} → Memᴰ x (filter_some l) → Memᴰ (some x) l
mem-filter_some_sound [] m = elim m [ ]
mem-filter_some_sound (none ∷ l) m = Memᴰ.tail (mem-filter_some_sound l m)
mem-filter_some_sound (some y ∷ l) (Memᴰ.head e) = Memᴰ.head (ap some e)
mem-filter_some_sound (some y ∷ l) (Memᴰ.tail m) = Memᴰ.tail (mem-filter_some_sound l m)
