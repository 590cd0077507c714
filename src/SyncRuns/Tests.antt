-- ===== src/SyncRuns/Tests.antt =====
-- Runs of the synchronisation.
use widget_demo.Prelude.{
  ℕ, String, false, ◌≡◌, refl, Option, none, some, [], ◌∷◌, HttpError, Result, ok, err,
  unauthorized,
}
use widget_demo.Table.{string_eq, insert}
use widget_demo.Samples.{school}
use widget_demo.Pages.{Response, MasterDataRecord}
use widget_demo.SyncRuns.{SyncSession, Directory, failed, load_all, fail_run, finish, sync}

abbrev session : SyncSession
session = record { tenant_id = "t"; identity_id = "lee" }

abbrev directory : Directory
directory = record { db = school; runs = [] }

abbrev class_record : MasterDataRecord
class_record = record { id = "9"; external_id = some "c9"; deleted = false; fields = [] }

-- one page of each type
abbrev fetch : String → String → ℕ → Option String → Result HttpError Response
fetch entity_type access n cursor = ok (record {
  status = 200;
  records = some (class_record ∷ []);
  next_cursor = none;
  has_more = false;
})

abbrev name_error : HttpError → String
name_error why = "UnauthorizedException"

refused_token :
    sync (λ id. id) name_error "r" 5 7 session (err (unauthorized "no")) fetch 2 directory
    ≡ some (
      err (unauthorized "no"),
      record {
        db = school;
        runs =
            (
              "r",
              record {
                tenant_id = "t";
                requested_by = "lee";
                status = failed;
                counts = none;
                error_code = some "UnauthorizedException";
                started_at = 5;
                finished_at = some 7;
              },
            )
            ∷ [];
      },
    )
unfolding sync load_all finish fail_run insert
refused_token = refl
