-- ===== src/Csv/Rows.antt =====
-- A file that is read without errors.
use widget_demo.Prelude.{
  ℕ, ◌+◌, String, ◌≡◌, refl, ap, true, false, some, List, [], ◌∷◌, ◌++◌, arith, length, suc, All,
  Bool-cases, inl, inr,
}
use widget_demo.Numbers.{Numbers}
use widget_demo.Scores.{ScoreCell, cell_key, contains}
use widget_demo.Scores.Checks.{IsDistinct, IsFresh, IsFresh-IsDistinct}
use widget_demo.Csv.{read_row, read_rows, check_header, is_header, rows_of_source, parse}

append-eq-nil : {A : Type 0} (xs ys : List A) → (xs ++ ys) ≡ [] → (xs ≡ []) × (ys ≡ [])
append-eq-nil [] ys h = (refl, h)
append-eq-nil (x ∷ xs) ys h = absurd (cc)

module _ (num : Numbers) where
  abbrev pub IsReadable : ScoreCell num.Number → Type 0
  IsReadable cell = (score : num.Number) → cell.score ≡ some score → num.is_finite score ≡ true

  read_row-clean :
      (n : ℕ) (seen : List String) (a b c d : String)
      → (read_row num n seen a b c d).1 ≡ []
      → IsReadable (read_row num n seen a b c d).0
        × (contains (cell_key (read_row num n seen a b c d).0) seen ≡ false)
  unfolding read_row
  read_row-clean n seen a b c d h = (λ score e. ground (arith, e, h), ground (arith, h))

  abbrev Clean : List String → List (List String) → List (ScoreCell num.Number) → Type 0
  Clean seen rows cells = (length cells ≡ length rows) × IsFresh seen cells × All IsReadable cells

  read_rows-Clean :
      (n : ℕ) (seen : List String) (rows : List (List String))
      → (read_rows num n seen rows).1 ≡ []
      → Clean seen rows (read_rows num n seen rows).0
  unfolding read_rows
  read_rows-Clean n seen [] h = (refl, tt, tt)
  read_rows-Clean n seen ((a ∷ b ∷ c ∷ d ∷ []) ∷ rows) h =
      let (here, later) = append-eq-nil _ _ h in
      let (readable, fresh) = read_row-clean n seen a b c d here in
      let (count, all_fresh, all_readable) =
        read_rows-Clean (n + 1) (cell_key (read_row num n seen a b c d).0 ∷ seen) rows later in
      (ap suc count, (fresh, all_fresh), (readable, all_readable))
  read_rows-Clean n seen (row ∷ rows) h = absurd (cc)

  check_header-clean :
      (rows : List (List String))
      → (check_header num rows).errors ≡ []
      → (length (check_header num rows).cells ≡ (check_header num rows).total_rows)
        × IsFresh [] (check_header num rows).cells
        × All IsReadable (check_header num rows).cells
  unfolding check_header
  check_header-clean [] h = absurd (cc)
  check_header-clean (header ∷ rows) h = elim (Bool-cases (is_header header)) [
    | inl good ↦ rw good (read_rows-Clean 2 [] rows (rw good at h))
    | inr bad ↦ absurd (cc (rw bad at h))
  ]

  -- A file that is read without errors gives a cell for each of its rows, all for different
  -- students or subjects, and every score in it is a finite number.
  pub parse-clean :
      (source : String)
      → (parse num source).errors ≡ []
      → (length (parse num source).cells ≡ (parse num source).total_rows)
        × IsDistinct (parse num source).cells
        × All IsReadable (parse num source).cells
  unfolding parse
  parse-clean source h =
      let (count, fresh, readable) = check_header-clean (rows_of_source source) h in
      (count, IsFresh-IsDistinct [] _ fresh, readable)
