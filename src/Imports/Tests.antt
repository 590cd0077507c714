-- ===== src/Imports/Tests.antt =====
-- An import of the sample school.
use widget_demo.Prelude.{String, ◌≡◌, ◌⊎◌, HttpError, err}
use widget_demo.Table.{string_eq, insert}
use widget_demo.Samples.{hundredths, school, miss_lee}
use widget_demo.Csv.{parse}
use widget_demo.Imports.{new_import, import_scores}
use widget_demo.Imports.Outcome.{Ends, import_scores-Ends}

abbrev file : String
file = "student_id,subject_id,score,absent\n3,new1,99,false\n"

import_scores-Ends_example :
    ((why : HttpError) × (import_scores hundredths "i" 9 miss_lee "new" "a.csv" file school
        ≡ (err why, school)))
    ⊎ Ends hundredths "i" 9 miss_lee "new"
        (parse hundredths file)
        (record school {
          score_imports = insert "i" (new_import miss_lee "new" "a.csv") school.score_imports;
        })
        (import_scores hundredths "i" 9 miss_lee "new" "a.csv" file school)
import_scores-Ends_example = import_scores-Ends hundredths "i" 9 miss_lee "new" "a.csv" file school
