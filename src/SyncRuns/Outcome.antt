-- ===== src/SyncRuns/Outcome.antt =====
-- How a synchronisation ends.
use widget_demo.Prelude.{ℕ, String, ◌≡◌, Option, some, HttpError, Result, ok, err, unique_violation}
use widget_demo.Table.{string_eq, Table, lookup}
use widget_demo.Pages.{Response}
use widget_demo.Directory.{Records, records_of, sync_people, sync_classes, sync_courses}
use widget_demo.Directory.Isolation.{IsIsolated}
use widget_demo.SyncRuns.{
  SyncRun, SyncSession, Synchronised, Directory, partial, failed, counts_of, load_all,
}

module _ (new_id : String → String) (error_name : HttpError → String) (run_id : String)
    (now later : ℕ) (session : SyncSession) (token : Result HttpError String)
    (fetch : String → String → ℕ → Option String → Result HttpError Response) where
  -- the run is stored as failed, with the exception's name
  pub record IsFailure (why : HttpError) (after : Directory) : Type 0 where
    pub run : SyncRun
    pub recorded : lookup run_id after.runs ≡ some run
    pub status : run.status ≡ failed
    pub error_code : run.error_code ≡ some (error_name why)
    pub finished : run.finished_at ≡ some later

  -- the people and the classes of the records are stored, and the rows of other tenants are as they
  -- were
  pub record IsStored (records : Records) (before after : Directory) : Type 0 where
    pub people : after.db.people ≡ sync_people new_id session.tenant_id records before.db.people
    pub classrooms :
        after.db.classrooms
        ≡ sync_classes new_id session.tenant_id (records_of "class" records) before.db.classrooms
    pub isolated : IsIsolated new_id session.tenant_id before.db after.db

  -- what a run leaves: it has failed and is all that has changed; or it has failed at the courses,
  -- after people and classes were stored; or it counts the records that have been read, and all
  -- three are stored
  pub data IsEnded (fuel : ℕ) (before after : Directory)
      : Result HttpError Synchronised → Type 0 where
    raised :
        (why : HttpError)
        → load_all new_id error_name run_id now later session token fetch fuel token
          ≡ some (err why)
        → after.db ≡ before.db
        → IsFailure why after
        → IsEnded fuel before after (err why)
    clashed :
        (why : HttpError) (records : Records)
        → load_all new_id error_name run_id now later session token fetch fuel token
          ≡ some (ok records)
        → sync_courses new_id session.tenant_id (records_of "course" records) before.db.courses
          ≡ err why
        → why ≡ unique_violation
        → after.db.courses ≡ before.db.courses
        → IsStored records before after
        → IsFailure why after
        → IsEnded fuel before after (err why)
    returned :
        (answer : Synchronised) (records : Records) (run : SyncRun)
        → load_all new_id error_name run_id now later session token fetch fuel token
          ≡ some (ok records)
        → sync_courses new_id session.tenant_id (records_of "course" records) before.db.courses
          ≡ ok after.db.courses
        → IsStored records before after
        → lookup run_id after.runs ≡ some run
        → run.status ≡ partial
        → run.counts ≡ some answer.counts
        → answer.counts ≡ counts_of records
        → run.finished_at ≡ some later
        → IsEnded fuel before after (ok answer)
