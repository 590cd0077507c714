-- ===== src/Csv/Tests.antt =====
-- Files of scores.
use widget_demo.Prelude.{chars, String, ◌≡◌, List, [], ◌∷◌, map}
use widget_demo.Texts.{Text, trim}
use widget_demo.Csv.{parse_csv_row}
use widget_demo.Csv.Quoting.{print_row, parse_csv_row-print_row}

abbrev two_rows : String
two_rows = "student_id,subject_id,score,absent\r\n3,new1,99,false\n4,new1,,TRUE\n\n"

abbrev odd_fields : List Text
odd_fields = chars "x, y" ∷ chars "\"z\"" ∷ []

parse_csv_row-print_row_example :
    parse_csv_row (print_row (chars " a ") odd_fields) ≡ map trim (chars " a " ∷ odd_fields)
parse_csv_row-print_row_example = parse_csv_row-print_row (chars " a ") odd_fields
