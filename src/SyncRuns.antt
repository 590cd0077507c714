-- ===== src/SyncRuns.antt =====
-- `sync` and `listRuns` of backend/src/directory-sync/directory-sync.service.ts, with the runs that
-- they record.
pub mod Outcome
mod Tests
use widget_demo.Prelude.{
  ℕ, String, Option, none, some, List, [], ◌∷◌, ◌==◌, leb, if◌then◌else◌, length, take, filter,
  HttpError, Result, ok, err,
}
use widget_demo.Table.{string_eq, Table, lookup, insert}
use widget_demo.Sorting.{sort}
use widget_demo.School.{Database}
use widget_demo.Pages.{Response, Collected, collect_pages, get_page, MasterDataRecord}
use widget_demo.Directory.{Records, records_of, sync_records}

-- the loop over the entity types: the first exception ends it
unfoldable pub add_records :
    String
    → Collected MasterDataRecord
    → Option (Result HttpError Records)
    → Option (Result HttpError Records)
add_records entity_type none rest = none
add_records entity_type (some (err why)) rest = some (err why)
add_records entity_type (some (ok items)) none = none
add_records entity_type (some (ok items)) (some (err why)) = some (err why)
add_records entity_type (some (ok items)) (some (ok records)) =
    some (ok ((entity_type, items) ∷ records))

unfoldable pub gather :
    (String → Collected MasterDataRecord) → List String → Option (Result HttpError Records)
gather collect [] = some (ok [])
gather collect (entity_type ∷ rest) =
    add_records entity_type (collect entity_type) (gather collect rest)

abbrev pub entity_types : List String
entity_types =
    "teacher" ∷ "student" ∷ "parent" ∷ "class" ∷ "course" ∷ "teacher_teaching_assignment"
    ∷ "student_class_relation" ∷ "parent_student_relation" ∷ []

pub data SyncStatus : Type 0 where
  running succeeded partial failed : SyncStatus

pub record SyncRun : Type 0 where
  pub tenant_id : String
  pub requested_by : String
  pub status : SyncStatus
  pub counts : Option (Table String ℕ)
  pub error_code : Option String
  pub started_at : ℕ
  pub finished_at : Option ℕ

pub record SyncSession : Type 0 where
  pub tenant_id : String
  pub identity_id : String

pub record Synchronised : Type 0 where
  pub run_id : String
  pub status : String
  pub counts : Table String ℕ

pub record Directory : Type 0 where
  pub db : Database
  pub runs : Table String SyncRun

abbrev pub counts_of : Records → Table String ℕ
counts_of records =
    ("teacher", length (records_of "teacher" records))
    ∷ ("student", length (records_of "student" records))
    ∷ ("parent", length (records_of "parent" records))
    ∷ ("class", length (records_of "class" records))
    ∷ ("course", length (records_of "course" records))
    ∷ (
      "skipped_teacher_teaching_assignment",
      length (records_of "teacher_teaching_assignment" records),
    )
    ∷ ("skipped_student_class_relation", length (records_of "student_class_relation" records))
    ∷ ("skipped_parent_student_relation", length (records_of "parent_student_relation" records))
    ∷ []

abbrev pub new_run : ℕ → SyncSession → SyncRun
new_run now session = record {
  tenant_id = session.tenant_id;
  requested_by = session.identity_id;
  status = running;
  counts = none;
  error_code = none;
  started_at = now;
  finished_at = none;
}

-- `new_id` and `run_id` are the identifiers of new rows, `now` and `later` the times at which the
-- run starts and ends, `error_name` is `error.name`, `token` what `getAccessTokenForSession` gives
-- or raises, and `fetch` answers the requests for pages of an entity type
module _ (new_id : String → String) (error_name : HttpError → String) (run_id : String)
    (now later : ℕ) (session : SyncSession) (token : Result HttpError String)
    (fetch : String → String → ℕ → Option String → Result HttpError Response) where
  unfoldable pub load_all : ℕ → Result HttpError String → Option (Result HttpError Records)
  load_all fuel (err why) = some (err why)
  load_all fuel (ok access_token) =
      gather
        (λ entity_type.
          collect_pages (λ n cursor. get_page (fetch entity_type access_token n cursor)) fuel)
        entity_types

  -- the `catch`
  unfoldable pub fail_run : HttpError → Directory → Result HttpError Synchronised × Directory
  fail_run why state = (
    err why,
    record state {
      runs =
          insert run_id
            (record (new_run now session) {
              status = failed;
              error_code = some (error_name why);
              finished_at = some later;
            })
            state.runs;
    },
  )

  -- what follows the transactions
  unfoldable pub complete_run :
      Records
      → Result {0, 0} HttpError Unit × Database
      → Table String SyncRun
      → Result HttpError Synchronised × Directory
  complete_run records (err why, db) runs = fail_run why (record { db = db; runs = runs })
  complete_run records (ok u, db) runs = (
    ok (record { run_id = run_id; status = "partial"; counts = counts_of records }),
    record {
      db = db;
      runs =
          insert run_id
            (record (new_run now session) {
              status = partial;
              counts = some (counts_of records);
              finished_at = some later;
            })
            runs;
    },
  )

  unfoldable pub finish :
      Option (Result HttpError Records)
      → Directory
      → Option (Result HttpError Synchronised × Directory)
  finish none state = none
  finish (some (err why)) state = some (fail_run why state)
  finish (some (ok records)) state =
      some
        (complete_run records (sync_records new_id session.tenant_id records state.db) state.runs)

  -- `none` if the fuel for the pages of an entity type does not suffice
  unfoldable pub sync : ℕ → Directory → Option (Result HttpError Synchronised × Directory)
  sync fuel state =
      finish (load_all fuel token)
        (record state { runs = insert run_id (new_run now session) state.runs })

unfoldable pub list_runs : String → Table String SyncRun → List (String × SyncRun)
list_runs tenant_id runs = take 20 (
    sort (λ a b. leb b.1.started_at a.1.started_at)
      (filter (λ row. row.1.tenant_id == tenant_id) runs))
