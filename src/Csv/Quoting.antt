-- ===== src/Csv/Quoting.antt =====
-- A row of quoted fields is read back, up to the trimming of each field.
use Prim.Native.Char.{Char, code}
use mathlib.Core.List.{append_assoc, append-nil}
use widget_demo.Prelude.{
  ◌≡◌, refl, ap, sym, ◌∙◌, true, false, List, [], ◌∷◌, ◌++◌, map, arith, ◌=ℕ◌, Bool-cases, inl, inr,
  if◌then◌else◌,
}
use widget_demo.Csv.{Text, quote_mark, row_from, trim, parse_csv_row}

abbrev quote_char : Char
quote_char = "\""

abbrev comma_char : Char
comma_char = ","

-- a field in quotes, its own quotes doubled
abbrev pub escape : Text → Text
escape [] = []
escape (c ∷ s) = let rest = escape s in if code c =ℕ quote_mark then c ∷ c ∷ rest else c ∷ rest

abbrev pub quote_field : Text → Text
quote_field f = quote_char ∷ escape f ++ quote_char ∷ []

abbrev pub print_row : Text → List Text → Text
print_row f [] = quote_field f
print_row f (g ∷ fs) = quote_field f ++ comma_char ∷ print_row g fs

-- what may follow a field: nothing, or a character other than a quote
abbrev IsEnd : Text → Type 0
IsEnd [] = Unit
IsEnd (c ∷ s) = (code c =ℕ quote_mark) ≡ false

row_from-open : (v s : Text) → row_from v false (quote_char ∷ s) ≡ row_from v true s
unfolding row_from
row_from-open v [] = refl
row_from-open v (d ∷ s) = refl

row_from-close : (v s : Text) → IsEnd s → row_from v true (quote_char ∷ s) ≡ row_from v false s
unfolding row_from
row_from-close v [] h = refl
row_from-close v (d ∷ s) h = ground (arith, h)

row_from-comma : (v s : Text) → row_from v false (comma_char ∷ s) ≡ v ∷ row_from [] false s
unfolding row_from
row_from-comma v [] = refl
row_from-comma v (d ∷ s) = refl

-- inside quotes a character other than a quote is taken as it is
row_from-inside :
    (v : Text) (c : Char) (s : Text)
    → (code c =ℕ quote_mark) ≡ false
    → row_from v true (c ∷ s) ≡ row_from (v ++ c ∷ []) true s
unfolding row_from
row_from-inside v c [] h = ground (arith, h)
row_from-inside v c (d ∷ s) h = ground (arith, h)

row_from-doubled :
    (v : Text) (c : Char) (s : Text)
    → (code c =ℕ quote_mark) ≡ true
    → row_from v true (c ∷ c ∷ s) ≡ row_from (v ++ c ∷ []) true s
unfolding row_from
row_from-doubled v c s h = ground (arith, h)

row_from-escape : (v f s : Text) → row_from v true (escape f ++ s) ≡ row_from (v ++ f) true s
row_from-escape v [] s = rw append-nil
row_from-escape v (c ∷ f) s = elim (Bool-cases (code c =ℕ quote_mark)) [
  | inl quote ↦
      rw quote
        (row_from-doubled v c (escape f ++ s) quote ∙ row_from-escape (v ++ c ∷ []) f s ∙ regroup)
  | inr plain ↦
      rw plain
        (row_from-inside v c (escape f ++ s) plain ∙ row_from-escape (v ++ c ∷ []) f s ∙ regroup)
]
  where
    regroup : row_from ((v ++ c ∷ []) ++ f) true s ≡ row_from (v ++ c ∷ f) true s
    regroup = ap (λ (w : Text). row_from w true s) (append_assoc v (c ∷ []) f)

row_from-field :
    (f s : Text) → IsEnd s → row_from [] false (quote_field f ++ s) ≡ row_from f false s
row_from-field f s h =
    row_from-open [] ((escape f ++ quote_char ∷ []) ++ s)
    ∙ ap (row_from [] true) (append_assoc (escape f) (quote_char ∷ []) s)
    ∙ row_from-escape [] f (quote_char ∷ s)
    ∙ row_from-close f s h

row_from-print_row : (f : Text) (fs : List Text) → row_from [] false (print_row f fs) ≡ f ∷ fs
row_from-print_row f [] =
    ap (row_from [] false) (sym (append-nil (quote_field f)))
    ∙ row_from-field f [] tt
    ∙ (unfold row_from in refl)
row_from-print_row f (g ∷ fs) =
    row_from-field f (comma_char ∷ print_row g fs) refl
    ∙ row_from-comma f (print_row g fs)
    ∙ ap (◌∷◌ f) (row_from-print_row g fs)

-- Fields of any text, quotes and commas included, come back from a row that quotes each of them,
-- trimmed.
pub parse_csv_row-print_row :
    (f : Text) (fs : List Text) → parse_csv_row (print_row f fs) ≡ map trim (f ∷ fs)
unfolding parse_csv_row
parse_csv_row-print_row f fs = ap (map trim) (row_from-print_row f fs)
