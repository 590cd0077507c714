-- ===== src/Security/JsonType.antt =====
-- Which content types a JSON route accepts.
use widget_demo.Prelude.{
  chars, ℕ, String, ◌≡◌, ◌≢◌, ◌↔◌, ◌⊎◌, refl, ap, ◌∙◌, Bool, true, false, ◌&&◌, ◌||◌, some, List,
  [], ◌∷◌, ◌++◌, ◌=ℕ◌, arith, Bool-cases, Option-cases, inl, inr, All, ok,
}
use widget_demo.Texts.{codes, same_codes, strip_prefix}
use widget_demo.Security.Origin.{
  is_subtype_char, ends_in_json, json_suffix, media_type, is_json, check_content_type,
}

=ℕ-eq : (a b : ℕ) → (a =ℕ b) ≡ true → a ≡ b
=ℕ-eq a b h = ground arith

=ℕ_refl : (a : ℕ) → (a =ℕ a) ≡ true
=ℕ_refl a = ground arith

pub same_codes-eq : (a b : List ℕ) → same_codes a b ≡ true → a ≡ b
same_codes-eq [] [] h = refl
same_codes-eq [] (b ∷ ys) h = absurd (cc)
same_codes-eq (a ∷ xs) [] h = absurd (cc)
same_codes-eq (a ∷ xs) (b ∷ ys) h =
    rw (=ℕ-eq a b (ground (arith, h)), same_codes-eq xs ys (ground (arith, h)))

pub same_codes_refl : (a : List ℕ) → same_codes a a ≡ true
same_codes_refl [] = refl
same_codes_refl (a ∷ xs) = ground (arith, =ℕ_refl a, same_codes_refl xs)

strip_prefix-eq-some : (p s r : List ℕ) → strip_prefix p s ≡ some r → s ≡ p ++ r
unfolding strip_prefix
strip_prefix-eq-some [] s r h = cc
strip_prefix-eq-some (a ∷ p) [] r h = absurd (cc)
strip_prefix-eq-some (a ∷ p) (c ∷ s) r h = elim (Bool-cases (a =ℕ c)) [
  | inl same ↦ rw (=ℕ-eq a c same, strip_prefix-eq-some p s r (rw same at h))
  | inr other ↦ absurd (cc (rw other at h))
]

strip_prefix-append : (p r : List ℕ) → strip_prefix p (p ++ r) ≡ some r
unfolding strip_prefix
strip_prefix-append [] r = refl
strip_prefix-append (a ∷ p) r = rw (=ℕ_refl a, strip_prefix-append p r)

-- characters of the class, then the suffix; at least one of the former, unless there was one before
abbrev IsSuffixed : Bool → List ℕ → Type 0
IsSuffixed some_char s =
    (u : List ℕ) × All (λ c. is_subtype_char c ≡ true) u
    × ((some_char ≡ true) ⊎ (u ≢ []))
    × (s ≡ u ++ codes "+json")

ends_in_json_sound :
    (some_char : Bool) (s : List ℕ) → ends_in_json some_char s ≡ true → IsSuffixed some_char s
unfolding ends_in_json
ends_in_json_sound some_char [] h = absurd (cc)
ends_in_json_sound some_char (c ∷ s) h =
    elim (Bool-cases (some_char && same_codes (c ∷ s) (codes "+json"))) [
      | inl here ↦ (
        [],
        tt,
        inl (ground (arith, here)),
        same_codes-eq (c ∷ s) (codes "+json") (ground (arith, here)),
      )
      | inr later ↦
          let (u, class, _, e) = ends_in_json_sound true s (ground (arith, later, h)) in
          (c ∷ u, (ground (arith, later, h), class), inr (λ e. absurd (cc)), ap (◌∷◌ c) e)
    ]

ends_in_json_complete :
    (some_char : Bool) (u : List ℕ)
    → All (λ c. is_subtype_char c ≡ true) u
    → (some_char ≡ true) ⊎ (u ≢ [])
    → ends_in_json some_char (u ++ codes "+json") ≡ true
unfolding ends_in_json codes chars
ends_in_json_complete some_char [] class h = elim h [ inl e ↦ rw e refl | inr e ↦ absurd (e refl) ]
ends_in_json_complete some_char (c ∷ u) class h =
    ground (arith, class.0, ends_in_json_complete true u class.1 (inl refl))

abbrev IsJson : List ℕ → Type 0
IsJson media =
    (media ≡ codes "application/json")
    ⊎ ((u : List ℕ) × All (λ c. is_subtype_char c ≡ true) u
        × (u ≢ [])
        × (media ≡ codes "application/" ++ (u ++ codes "+json")))

json_suffix_sound :
    (media : List ℕ) → json_suffix (strip_prefix (codes "application/") media) ≡ true → IsJson media
json_suffix_sound media h = elim (Option-cases (strip_prefix (codes "application/") media)) [
  | inl missing ↦ absurd (cc (rw missing at h))
  | inr (rest, found) ↦
      let (u, class, some_char, e) = ends_in_json_sound false rest (rw found at h) in
      inr (
        u,
        class,
        elim some_char [ inl impossible ↦ absurd (cc) | inr named ↦ named ],
        strip_prefix-eq-some (codes "application/") media rest found
            ∙ ap (λ r. codes "application/" ++ r) e,
      )
]

is_json_sound :
    (content_type : String) → is_json (some content_type) ≡ true → IsJson (media_type content_type)
unfolding is_json
is_json_sound content_type h =
    elim (Bool-cases (same_codes (media_type content_type) (codes "application/json"))) [
      | inl same ↦ inl (same_codes-eq _ _ same)
      | inr other ↦ json_suffix_sound (media_type content_type) (rw other at h)
    ]

is_json_complete :
    (content_type : String) → IsJson (media_type content_type) → is_json (some content_type) ≡ true
unfolding is_json
is_json_complete content_type (inl e) = rw (e, same_codes_refl (codes "application/json"))
is_json_complete content_type (inr (u, class, named, e)) =
    let rest : strip_prefix (codes "application/") (media_type content_type)
        ≡ some (u ++ codes "+json") =
      ap (strip_prefix (codes "application/")) e
      ∙ strip_prefix-append (codes "application/") (u ++ codes "+json") in
    rw (rest, ends_in_json_complete false u class (inr named)) or_true
  where
    or_true : (same_codes (media_type content_type) (codes "application/json") || true) ≡ true
    or_true = ground arith

-- A JSON route answers exactly the requests whose media type, in lower case, is `application/json`
-- or `application/` with a subtype of the permitted characters before `+json`.
pub check_content_type_iff :
    (content_type : String)
    → (check_content_type true (some content_type) ≡ ok tt) ↔ (
        (media_type content_type ≡ codes "application/json")
        ⊎ ((u : List ℕ) × All (λ c. is_subtype_char c ≡ true) u
            × (u ≢ [])
            × (media_type content_type ≡ codes "application/" ++ (u ++ codes "+json"))))
unfolding check_content_type
check_content_type_iff content_type = (
  λ h. elim (Bool-cases (is_json (some content_type))) [
    | inl passed ↦ is_json_sound content_type passed
    | inr refused ↦ absurd (cc (rw refused at h))
  ],
  λ named. rw (is_json_complete content_type named),
)
