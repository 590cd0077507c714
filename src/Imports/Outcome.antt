-- ===== src/Imports/Outcome.antt =====
-- How an import ends.
use widget_demo.Prelude.{
  ℕ, ◌<◌, String, ◌≡◌, refl, ◌⊎◌, inl, inr, true, false, none, some, List, [], ◌∷◌, ◌++◌, arith,
  Bool-cases, Outcome-cases, HttpError, Result, unique_violation, foreign_key_violation, is_some,
  ok, err, length,
}
use widget_demo.Table.{string_eq, lookup, insert}
use widget_demo.Table.Laws.{lookup-insert_self}
use widget_demo.School.{
  ScoreImport, ScoreImportError, ScoreKey, failed, applied, Database, ActorContext, score_key_eq,
}
use widget_demo.Numbers.{Numbers}
use widget_demo.Exams.{in_tenant, has_person}
use widget_demo.Scores.{PreparedScoreCell}
use widget_demo.Scores.Accepted.{IsAccepted, validate-cases}
use widget_demo.Scores.Writes.{written, apply-cases}
use widget_demo.Csv.{ParsedCsv, parse}
use widget_demo.Imports.{
  failure_message, new_import, create_import, has_errors, fail, apply_import, complete,
  import_scores,
}

has_errors-eq-nil : (errors : List ScoreImportError) → has_errors errors ≡ false → errors ≡ []
unfolding has_errors
has_errors-eq-nil [] h = refl
has_errors-eq-nil (e ∷ es) h = absurd (cc)

has_errors-pos : (errors : List ScoreImportError) → has_errors errors ≡ true → 0 < length errors
unfolding has_errors
has_errors-pos [] h = absurd (cc)
has_errors-pos (e ∷ es) h = omega arith

module _ (num : Numbers) (id : String) (now : ℕ) (actor : ActorContext) (exam_id : String) where
  -- a failed import says why, and has written no score
  pub record IsFailed (row : ScoreImport) (before after : Database) : Type 0 where
    pub status : row.status ≡ failed
    pub completed : row.completed_at ≡ some now
    pub reasons : 0 < length row.errors
    pub unwritten : after.scores ≡ before.scores
    pub recorded : lookup id after.score_imports ≡ some row

  -- an applied import read a clean file, passed all checks of a grid, and wrote every cell
  pub record IsApplied (parsed : ParsedCsv num.Number) (row : ScoreImport) (before after : Database)
      : Type 0 where
    pub status : row.status ≡ applied
    pub completed : row.completed_at ≡ some now
    pub clean : parsed.errors ≡ []
    pub prepared : List PreparedScoreCell
    pub accepted : IsAccepted num actor exam_id parsed.cells before prepared
    pub counted : row.applied_rows ≡ length prepared
    pub scores :
        (key : ScoreKey)
        → lookup key after.scores ≡ written actor exam_id prepared key (lookup key before.scores)
    pub recorded : lookup id after.score_imports ≡ some row

  abbrev pub Ends :
      ParsedCsv num.Number → Database → Result HttpError ScoreImport × Database → Type 0
  Ends parsed before r =
      (row : ScoreImport) × (r.0 ≡ ok row)
      × (IsFailed row before r.1 ⊎ IsApplied parsed row before r.1)

  create_import-cases :
      (filename : String) (db : Database)
      → ((why : HttpError) × (create_import id actor exam_id filename db ≡ (err why, db)))
        ⊎ (create_import id actor exam_id filename db ≡ (
          ok (new_import actor exam_id filename),
          record db {
            score_imports = insert id (new_import actor exam_id filename) db.score_imports;
          },
        ))
  unfolding create_import
  create_import-cases filename db = elim (Bool-cases (is_some (lookup id db.score_imports))) [
    | inl taken ↦ inl (unique_violation, rw taken)
    | inr new ↦ elim (Bool-cases (is_some (in_tenant actor.tenant_id (lookup exam_id db.exams)))) [
      | inr unknown ↦ inl (foreign_key_violation, rw (new, unknown))
      | inl known ↦ elim (Bool-cases (has_person actor.tenant_id actor.person_id db)) [
        | inr nobody ↦ inl (foreign_key_violation, rw (new, known, nobody))
        | inl somebody ↦ inr (rw (new, known, somebody))
      ]
    ]
  ]

  fail-Ends :
      (row : ScoreImport) (parsed : ParsedCsv num.Number) (db : Database) (total : ℕ)
      (errors : List ScoreImportError)
      → row.errors ≡ []
      → 0 < length errors
      → Ends parsed db (fail id row now total errors db)
  unfolding fail
  fail-Ends row parsed db total errors fresh some_error = (
    record row {
      status = failed;
      total_rows = total;
      completed_at = some now;
      errors = row.errors ++ errors;
    },
    refl,
    inl (record {
      status = refl;
      completed = refl;
      reasons = rw fresh some_error;
      unwritten = refl;
      recorded = lookup-insert_self id _ db.score_imports;
    }),
  )

  apply_import-cases :
      (row : ScoreImport) (parsed : ParsedCsv num.Number) (db : Database)
      → parsed.errors ≡ []
      → ((why : HttpError) × (apply_import num id now actor exam_id row parsed db ≡ (err why, db)))
        ⊎ Ends parsed db (apply_import num id now actor exam_id row parsed db)
  unfolding apply_import
  apply_import-cases row parsed db clean = elim (validate-cases num actor exam_id parsed.cells db) [
    | inl (why, stopped) ↦ inl (why, rw stopped)
    | inr (ps, done, accepted) ↦ elim (apply-cases actor exam_id ps db) [
      | inl (why, stopped) ↦ inl (why, rw (done, stopped))
      | inr (grader, wrote, rows) ↦ inr (
        record row {
          status = applied;
          total_rows = parsed.total_rows;
          applied_rows = length ps;
          completed_at = some now;
        },
        rw (done, wrote),
        inr (record {
          status = refl;
          completed = refl;
          clean = clean;
          prepared = ps;
          accepted = accepted;
          counted = refl;
          scores = λ key. rw (done, wrote) (rows key);
          recorded = rw (done, wrote) (lookup-insert_self id _ db.score_imports);
        }),
      )
    ]
  ]

  unfoldable refusal : HttpError → ScoreImportError
  refusal why = record {
    row_number = 0;
    code = "VALIDATION_FAILED";
    message = failure_message why;
    raw_value = none;
  }

  module _ (row : ScoreImport) (parsed : ParsedCsv num.Number) (db : Database) where
    complete-unreadable :
        has_errors parsed.errors ≡ true
        → complete num id now actor exam_id row parsed db
          ≡ fail id row now parsed.total_rows parsed.errors db
    unfolding complete
    complete-unreadable h = rw h

    complete-refused :
        (why : HttpError)
        → has_errors parsed.errors ≡ false
        → apply_import num id now actor exam_id row parsed db ≡ (err why, db)
        → complete num id now actor exam_id row parsed db
          ≡ fail id row now parsed.total_rows (refusal why ∷ []) db
    unfolding complete refusal
    complete-refused why clean e = rw (clean, e)

    complete-applied :
        (r : ScoreImport)
        → has_errors parsed.errors ≡ false
        → (apply_import num id now actor exam_id row parsed db).0 ≡ ok r
        → complete num id now actor exam_id row parsed db
          ≡ apply_import num id now actor exam_id row parsed db
    unfolding complete
    complete-applied r clean e =
        elim (Outcome-cases (apply_import num id now actor exam_id row parsed db)) [
          | inl (why, stopped) ↦ absurd (cc (rw stopped at e))
          | inr (a, done) ↦ rw (clean, done)
        ]

    complete-Ends :
        row.errors ≡ [] → Ends parsed db (complete num id now actor exam_id row parsed db)
    complete-Ends fresh = elim (Bool-cases (has_errors parsed.errors)) [
      | inl unreadable ↦ rw (complete-unreadable unreadable) (
          fail-Ends row parsed db parsed.total_rows parsed.errors fresh
            (has_errors-pos parsed.errors unreadable))
      | inr clean ↦
          elim (apply_import-cases row parsed db (has_errors-eq-nil parsed.errors clean)) [
            | inl (why, stopped) ↦
                rw (complete-refused why clean stopped)
                  (fail-Ends row parsed db parsed.total_rows (refusal why ∷ []) fresh (omega arith))
            | inr ends ↦ rw (complete-applied ends.0 clean ends.1) ends
          ]
    ]

  -- The request is refused because the record cannot be created, and nothing has changed, or it
  -- ends with a record of the file, read in the database that holds the new record: failed, with a
  -- reason and no score written, or applied, which means that the file had no error, that every
  -- cell satisfies every rule of a grid, and that all of them are written.
  pub import_scores-Ends :
      (filename source : String) (db : Database)
      → ((why : HttpError) × (import_scores num id now actor exam_id filename source db
            ≡ (err why, db)))
        ⊎ Ends
            (parse num source)
            (record db {
              score_imports = insert id (new_import actor exam_id filename) db.score_imports;
            })
            (import_scores num id now actor exam_id filename source db)
  unfolding import_scores
  import_scores-Ends filename source db = elim (create_import-cases filename db) [
    | inl (why, stopped) ↦ inl (why, rw stopped)
    | inr created ↦ inr (
        rw created (
          complete-Ends (new_import actor exam_id filename) (parse num source)
            (record db {
              score_imports = insert id (new_import actor exam_id filename) db.score_imports;
            })
            refl))
  ]
