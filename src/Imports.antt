-- ===== src/Imports.antt =====
-- `import` of backend/src/exams/csv-import.service.ts: a file is recorded, read, checked like a grid
-- of scores and applied as a whole, or the record says why not.
pub mod Outcome
mod Tests
use widget_demo.Prelude.{
  ℕ, String, Bool, true, false, not, Option, none, some, List, [], ◌∷◌, ◌++◌, is_some, length,
  HttpError, bad_request, unique_violation, foreign_key_violation, Result, ok, err, Exec, pure,
  gets, raise_if, modify, transaction, attempt, if◌then◌else◌, ◌>>=◌, ◌>>◌,
}
use widget_demo.Table.{string_eq, lookup, insert}
use widget_demo.School.{
  ImportStatus, validating, failed, applied, ScoreImport, ScoreImportError, Database, ActorContext,
}
use widget_demo.Numbers.{Numbers}
use widget_demo.Exams.{Service, in_tenant, has_person}
use widget_demo.Scores.{PreparedScoreCell, validate, apply}
use widget_demo.Csv.{ParsedCsv, parse}

abbrev put_import : String → ScoreImport → Service ScoreImport
put_import id row db =
    (modify (λ d. record d { score_imports = insert id row d.score_imports }) >> pure row) db

-- the defaults of a new row
abbrev pub new_import : ActorContext → String → String → ScoreImport
new_import actor exam_id filename = record {
  tenant_id = actor.tenant_id;
  exam_id = exam_id;
  created_by_id = actor.person_id;
  filename = filename;
  status = validating;
  total_rows = 0;
  applied_rows = 0;
  completed_at = none;
  errors = [];
}

-- `scoreImport.create`: the exam and the person are referenced
unfoldable pub create_import : String → ActorContext → String → String → Service ScoreImport
create_import id actor exam_id filename = do
  taken ← gets (λ db. is_some (lookup id db.score_imports))
  raise_if taken unique_violation
  known ← gets (λ db. is_some (in_tenant actor.tenant_id (lookup exam_id db.exams)))
  raise_if (not known) foreign_key_violation
  person ← gets (has_person actor.tenant_id actor.person_id)
  raise_if (not person) foreign_key_violation
  put_import id (new_import actor exam_id filename)

-- `fail`, of the row that `create` has returned
unfoldable pub fail : String → ScoreImport → ℕ → ℕ → List ScoreImportError → Service ScoreImport
fail id row now total_rows errors = put_import id (record row {
  status = failed;
  total_rows = total_rows;
  completed_at = some now;
  errors = row.errors ++ errors;
})

unfoldable pub failure_message : HttpError → String
failure_message (bad_request message) = message
failure_message _ = "Score validation failed"

unfoldable pub has_errors : List ScoreImportError → Bool
has_errors [] = false
has_errors (e ∷ es) = true

module _ (num : Numbers) (id : String) (now : ℕ) (actor : ActorContext) (exam_id : String) where
  -- the `try` block
  unfoldable pub apply_import : ScoreImport → ParsedCsv num.Number → Service ScoreImport
  apply_import row parsed = do
    prepared ← validate num actor exam_id parsed.cells
    transaction (do
      apply actor exam_id prepared
      put_import id (record row {
        status = applied;
        total_rows = parsed.total_rows;
        applied_rows = length prepared;
        completed_at = some now;
      }))

  unfoldable pub complete : ScoreImport → ParsedCsv num.Number → Service ScoreImport
  complete row parsed =
      if has_errors parsed.errors
      then fail id row now parsed.total_rows parsed.errors
      else attempt (apply_import row parsed) (λ why. fail id row now parsed.total_rows (
          record {
            row_number = 0;
            code = "VALIDATION_FAILED";
            message = failure_message why;
            raw_value = none;
          }
          ∷ []))

  unfoldable pub import_scores : (filename : String) → (source : String) → Service ScoreImport
  import_scores filename source = do
    row ← create_import id actor exam_id filename
    complete row (parse num source)
