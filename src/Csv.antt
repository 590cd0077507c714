-- ===== src/Csv.antt =====
-- The text side of backend/src/exams/csv-import.service.ts: lines, fields and cells. A text is its
-- list of characters; the characters that the code looks for are no halves of surrogate pairs, so
-- the code units of the source may be read as characters.
pub mod Quoting
pub mod Rows
mod Tests
use Prim.Native.Char.{Char, code}
use text.Mathlib.TextBridge.{of_list}
use mathlib.Core.List.{reverse}
use widget_demo.Prelude.{
  chars, ℕ, ◌+◌, String, Bool, true, false, ◌&&◌, ◌||◌, not, Option, none, some, List, [], ◌∷◌,
  ◌++◌, map, ◌==◌, ◌=ℕ◌, leb, if◌then◌else◌, filter, any, is_some, length,
}
use widget_demo.Texts.{Text, trim, codes, lower, same_codes}
use widget_demo.School.{ScoreImportError}
use widget_demo.Numbers.{Numbers}
use widget_demo.Scores.{ScoreCell, cell_key, contains}

abbrev pub quote_mark : ℕ
quote_mark = b'"'

abbrev pub comma : ℕ
comma = b','

-- the `for` of `parseCsvRow`, over the characters that are left
unfoldable pub row_from : Text → Bool → Text → List Text
row_from value quoted [] = value ∷ []
row_from value quoted (c ∷ []) =
    if code c =ℕ quote_mark
    then value ∷ []
    else if code c =ℕ comma && not quoted
    then value ∷ [] ∷ []
    else (value ++ c ∷ []) ∷ []
row_from value quoted (c ∷ d ∷ rest) = elim (code c =ℕ quote_mark) [
  | true ↦ elim (quoted && code d =ℕ quote_mark) [
    | true ↦ row_from (value ++ c ∷ []) quoted rest
    | false ↦ row_from value (not quoted) (d ∷ rest)
  ]
  | false ↦ elim (code c =ℕ comma && not quoted) [
    | true ↦ value ∷ row_from [] quoted (d ∷ rest)
    | false ↦ row_from (value ++ c ∷ []) quoted (d ∷ rest)
  ]
]

unfoldable pub parse_csv_row : Text → List Text
unfolding row_from
parse_csv_row line = map trim (row_from [] false line)

-- `split(/\r?\n/)`: a line ends before its line feed, and before one carriage return in front of it
unfoldable pub drop_cr : Text → Text
drop_cr [] = []
drop_cr (c ∷ []) = if code c =ℕ 13 then [] else c ∷ []
drop_cr (c ∷ d ∷ s) = c ∷ drop_cr (d ∷ s)

unfoldable pub lines_from : Text → Text → List Text
unfolding drop_cr
lines_from line [] = line ∷ []
lines_from line (c ∷ s) = elim (code c =ℕ 10) [
  | true ↦ drop_cr line ∷ lines_from [] s
  | false ↦ lines_from (line ++ c ∷ []) s
]

-- `replace(/^\uFEFF/, '')`
unfoldable pub drop_bom : Text → Text
drop_bom [] = []
drop_bom (c ∷ s) = if code c =ℕ 65279 then s else c ∷ s

abbrev is_blank : Text → Bool
is_blank [] = true
is_blank (c ∷ s) = false

unfoldable pub rows_of_source : String → List (List String)
unfolding drop_bom lines_from parse_csv_row
rows_of_source source =
    map (λ line. map of_list (parse_csv_row line))
      (filter (λ line. not (is_blank (trim line))) (lines_from [] (drop_bom (chars source))))

-- `header.join(',')`
unfoldable pub join_commas : List String → Text
join_commas [] = []
join_commas (x ∷ []) = chars x
join_commas (x ∷ y ∷ xs) = chars x ++ chars "," ++ join_commas (y ∷ xs)

abbrev pub header_line : String
header_line = "student_id,subject_id,score,absent"

-- `text.toLowerCase() === word`
unfoldable pub lower_is : String → String → Bool
lower_is text word = same_codes (map lower (codes text)) (codes word)

pub record ParsedCsv (N : Type 0) : Type 0 where
  pub total_rows : ℕ
  pub cells : List (ScoreCell N)
  pub errors : List ScoreImportError

abbrev row_error : ℕ → String → String → List String → List ScoreImportError
row_error row_number kind message row =
    record { row_number = row_number; code = kind; message = message; raw_value = some row } ∷ []

unfoldable pub is_header : List String → Bool
unfolding join_commas
is_header header = same_codes (map code (join_commas header)) (codes header_line)

module _ (num : Numbers) where
  -- `rawScore === '' ? null : Number(rawScore)`
  unfoldable pub read_score : String → Option num.Number
  read_score raw = if raw == "" then none else some (num.parse raw)

  abbrev is_bad : Option num.Number → Bool
  is_bad none = false
  is_bad (some score) = not (num.is_finite score)

  -- one row of four columns: its cell, and the errors that it adds
  unfoldable pub read_row :
      ℕ
      → List String
      → String
      → String
      → String
      → String
      → ScoreCell num.Number × List ScoreImportError
  unfolding read_score lower_is
  read_row row_number seen student subject raw_score raw_absent =
      let row = student ∷ subject ∷ raw_score ∷ raw_absent ∷ [] in
      let score = read_score raw_score in
      let cell : ScoreCell num.Number = record {
        student_eduplus_id = student;
        subject_id = subject;
        score = score;
        absent = lower_is raw_absent "true";
      } in
      (
        cell,
        (if lower_is raw_absent "true" || lower_is raw_absent "false"
              then []
              else row_error row_number "INVALID_ABSENT" "Absent must be true or false" row)
            ++ ((if is_bad score
                  then row_error row_number "INVALID_SCORE" "Score must be numeric" row
                  else [])
                ++ (if contains (cell_key cell) seen
                    then row_error row_number "DUPLICATE_ROW"
                        "Student and subject row is duplicated" row
                    else [])),
      )

  -- the `forEach`; `seen` holds the keys of the rows before
  unfoldable pub read_rows :
      ℕ → List String → List (List String) → List (ScoreCell num.Number) × List ScoreImportError
  unfolding read_row
  read_rows row_number seen [] = ([], [])
  read_rows row_number seen ((student ∷ subject ∷ raw_score ∷ raw_absent ∷ []) ∷ rest) =
      let (cell, found) = read_row row_number seen student subject raw_score raw_absent in
      let (cells, errors) = read_rows (row_number + 1) (cell_key cell ∷ seen) rest in
      (cell ∷ cells, found ++ errors)
  read_rows row_number seen (row ∷ rest) =
      let (cells, errors) = read_rows (row_number + 1) seen rest in
      (
        cells,
        row_error row_number "INVALID_COLUMNS" "CSV row must contain four columns" row ++ errors,
      )

  unfoldable pub check_header : List (List String) → ParsedCsv num.Number
  unfolding read_rows
  check_header [] = record {
    total_rows = 0;
    cells = [];
    errors =
        record {
          row_number = 1;
          code = "INVALID_HEADER";
          message = "CSV header must be student_id,subject_id,score,absent";
          raw_value = none;
        }
        ∷ [];
  }
  check_header (header ∷ rows) =
      let (cells, errors) = read_rows 2 [] rows in
      if is_header header
      then record { total_rows = length rows; cells = cells; errors = errors }
      else record {
        total_rows = length rows;
        cells = [];
        errors =
            record {
              row_number = 1;
              code = "INVALID_HEADER";
              message = "CSV header must be student_id,subject_id,score,absent";
              raw_value = none;
            }
            ∷ [];
      }

  unfoldable pub parse : String → ParsedCsv num.Number
  unfolding rows_of_source check_header
  parse source = check_header (rows_of_source source)
