-- ===== src/Texts.antt =====
-- JavaScript's functions on texts, as the services use them. A text is its list of characters, or
-- of their numbers; the characters that the code looks for are no halves of surrogate pairs, so the
-- code units of the source may be read as characters.
use text.Mathlib.TextBridge.{of_list}
use Prim.Native.Char.{Char, code}
use mathlib.Core.List.{reverse}
use widget_demo.Prelude.{
  chars, ℕ, ◌+◌, String, Bool, true, false, ◌&&◌, ◌||◌, Option, none, some, List, [], ◌∷◌, map,
  ◌=ℕ◌, leb, if◌then◌else◌, ◌==◌,
}

abbrev pub Text : Type 0
Text = List Char

unfoldable pub codes : String → List ℕ
unfolding chars
codes s = map code (chars s)

abbrev pub same_codes : List ℕ → List ℕ → Bool
same_codes [] [] = true
same_codes (a ∷ xs) (b ∷ ys) = a =ℕ b && same_codes xs ys
same_codes _ _ = false

-- the characters that `trim` strips
unfoldable pub is_space : Char → Bool
is_space c =
    let n = code c in
    (leb 9 n && leb n 13)
    || (n =ℕ 32
        || (n =ℕ 160
            || (n =ℕ 5760
                || ((leb 8192 n && leb n 8202)
                    || (n =ℕ 8232
                        || (n =ℕ 8233
                            || (n =ℕ 8239 || (n =ℕ 8287 || (n =ℕ 12288 || n =ℕ 65279)))))))))

unfoldable pub trim_start : Text → Text
unfolding is_space
trim_start [] = []
trim_start (c ∷ s) = elim (is_space c) [ true ↦ trim_start s | false ↦ c ∷ s ]

unfoldable pub trim : Text → Text
unfolding trim_start
trim s = reverse (trim_start (reverse (trim_start s)))

-- `toLowerCase`, as far as the result is compared with ASCII letters: beside the capitals only the
-- Kelvin sign has one of them as its lower case
unfoldable pub lower : ℕ → ℕ
lower n = if leb b'A' n && leb n b'Z' then n + 32 else if n =ℕ 8490 then 107 else n

-- `split(mark, 1)[0]`
unfoldable pub before : ℕ → Text → Text
before mark [] = []
before mark (c ∷ s) = let rest = before mark s in if code c =ℕ mark then [] else c ∷ rest

-- what follows the prefix, if the text `startsWith` it
unfoldable pub strip_prefix : List ℕ → List ℕ → Option (List ℕ)
strip_prefix [] s = some s
strip_prefix (a ∷ p) [] = none
strip_prefix (a ∷ p) (c ∷ s) = let rest = strip_prefix p s in if a =ℕ c then rest else none

-- a text that is there and not empty: one that JavaScript takes for true
unfoldable pub is_truthy : Option String → Option String
is_truthy none = none
is_truthy (some text) = if text == "" then none else some text

-- the text without the suffix, if it `endsWith` it
unfoldable pub drop_suffix : Text → Text → Option Text
drop_suffix suffix [] = if same_codes (map code suffix) [] then some [] else none
drop_suffix suffix (c ∷ s) =
    if same_codes (map code suffix) (map code (c ∷ s))
    then some []
    else elim (drop_suffix suffix s) [ none ↦ none | some rest ↦ some (c ∷ rest) ]

-- `length`: the characters beyond the first plane have two code units
unfoldable pub units : Text → ℕ
units [] = 0
units (c ∷ s) = (if leb 65536 (code c) then 2 else 1) + units s

abbrev pub any_space : Text → Bool
any_space [] = false
any_space (c ∷ s) = is_space c || any_space s

abbrev token_of : Text → Option String
token_of [] = none
token_of (c ∷ s) = if any_space (c ∷ s) then none else some (of_list (c ∷ s))

-- what follows the mark, if the text begins with it, up to ASCII case if so told
unfoldable pub after_mark : Bool → List ℕ → Text → Option Text
after_mark any_case [] s = some s
after_mark any_case (a ∷ mark) [] = none
after_mark any_case (a ∷ mark) (c ∷ s) =
    let rest = after_mark any_case mark s in
    if (if any_case then lower a =ℕ lower (code c) else a =ℕ code c) then rest else none

abbrev bearer_from : Option Text → Option String
bearer_from none = none
bearer_from (some s) = token_of s

-- the token of `Bearer `, one or more characters that are no spaces
unfoldable pub bearer : Bool → Text → Option String
bearer any_case s = bearer_from (after_mark any_case (codes "Bearer ") s)
