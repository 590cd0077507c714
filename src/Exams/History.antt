-- ===== src/Exams/History.antt =====
-- What holds of the exams after any sequence of requests, and how a request that fails ends.
use widget_demo.Prelude.{
  ℕ, String, Bool, refl, ◌≡◌, ◌≤◌, ◌<◌, ◌↔◌, inl, inr, true, false, ◌||◌, eq_iff, Option, none,
  some, List, [], ◌∷◌, arith, HttpError, forbidden, ok, err, length, is_some,
}
use mathlib.Core.Path.{subst}
use widget_demo.Table.{string_eq, lookup}
use widget_demo.School.{
  draft, published, withdrawn, Exam, Database, ActorContext, is_teacher, is_staff,
}
use widget_demo.Exams.{
  create, list, update, publish, withdraw, is_draft, subjects_of, detail, in_tenant,
  assert_staff_actor, mutable_exam,
}
use widget_demo.Exams.Guards.{MayChange, update-cases, publish-cases, withdraw-cases}
use widget_demo.Exams.Lifecycle.{
  Step, untouched, created, edited, opened, closed, create-cases, detail-cases, handle-Step,
  is_draft-eq,
}
use widget_demo.Exams.Requests.{
  ExamRequest, create_request, list_request, detail_request, update_request, publish_request,
  withdraw_request, handle,
}

-- requests of any actors, one after the other
unfoldable pub run : List (ActorContext × ExamRequest) → Database → Database
run [] db = db
run ((actor, request) ∷ rest) db = run rest (handle actor request db).1

abbrev pub phase : Option Exam → ℕ
phase none = 0
phase (some e) = elim e.status [ draft ↦ 1 | published ↦ 2 | withdrawn ↦ 3 ]

-- The timestamps of an exam say what its status says.
abbrev pub IsStamped : Option Exam → Type 0
IsStamped none = Unit
IsStamped (some e) = elim e.status [
  | draft ↦ (is_some e.published_at ≡ false) × (is_some e.withdrawn_at ≡ false)
  | published ↦ (is_some e.published_at ≡ true) × (is_some e.withdrawn_at ≡ false)
  | withdrawn ↦ (is_some e.published_at ≡ true) × (is_some e.withdrawn_at ≡ true)
]

module _ {actor : ActorContext} {before after : Option Exam} where
  phase-Step : Step actor before after → phase before ≤ phase after
  phase-Step (untouched same) = rw same (omega arith)
  phase-Step (created e b a _ _ s _ _) = ground arith
  phase-Step (edited e e' b a may s same) = ground arith
  phase-Step (opened e now b may s a) = ground arith
  phase-Step (closed e now b may s a) = ground arith

  IsStamped-Step : Step actor before after → IsStamped before → IsStamped after
  IsStamped-Step (untouched same) h = rw same h
  IsStamped-Step (created e b a _ _ s p w) h = ground arith
  IsStamped-Step (edited e e' b a may s same) h = ground arith
  IsStamped-Step (opened e now b may s a) h = ground arith
  IsStamped-Step (closed e now b may s a) h = ground arith

  final-Step :
      (e : Exam) → Step actor before after → before ≡ some e → e.status ≡ withdrawn → after ≡ some e
  final-Step e (untouched same) b w = cc
  final-Step e (created _ b' _ _ _ _ _ _) b w = cc
  final-Step e (edited f e' b' a may s same) b w = ground arith
  final-Step e (opened f now b' may s a) b w = ground arith
  final-Step e (closed f now b' may s a) b w = ground arith

-- Through any sequence of requests of any actors the status of an exam only goes forward: none,
-- draft, published, withdrawn.
pub run_forward :
    (requests : List (ActorContext × ExamRequest)) (db : Database) (j : String)
    → phase (lookup j db.exams) ≤ phase (lookup j (run requests db).exams)
unfolding run
run_forward [] db j = omega arith
run_forward ((actor, request) ∷ rest) db j = omega (
  arith,
  phase-Step (handle-Step actor request db j),
  run_forward rest (handle actor request db).1 j,
)

-- If the timestamps of an exam say what its status says, they do so after any sequence of requests
-- of any actors: a draft has none, a published exam has only that of its publication, and a withdrawn
-- one has both.
pub run-IsStamped :
    (requests : List (ActorContext × ExamRequest)) (db : Database) (j : String)
    → IsStamped (lookup j db.exams)
    → IsStamped (lookup j (run requests db).exams)
unfolding run
run-IsStamped [] db j h = h
run-IsStamped ((actor, request) ∷ rest) db j h =
    run-IsStamped rest (handle actor request db).1 j
      (IsStamped-Step (handle-Step actor request db j) h)

-- No sequence of requests changes an exam that has been withdrawn.
pub run_withdrawn :
    (requests : List (ActorContext × ExamRequest)) (db : Database) (j : String) (e : Exam)
    → lookup j db.exams ≡ some e
    → e.status ≡ withdrawn
    → lookup j (run requests db).exams ≡ some e
unfolding run
run_withdrawn [] db j e found w = found
run_withdrawn ((actor, request) ∷ rest) db j e found w =
    run_withdrawn rest (handle actor request db).1 j e
      (final-Step e (handle-Step actor request db j) found w) w

-- A request that raises has written nothing.
pub handle_atomic :
    (actor : ActorContext) (request : ExamRequest) (db : Database) (why : HttpError)
    → (handle actor request db).0 ≡ err why
    → (handle actor request db).1 ≡ db
unfolding handle list
handle_atomic actor (create_request id ids command) db why h =
    elim (create-cases id ids actor command db) [
      | inl (w, stopped) ↦ rw stopped
      | inr (d, done, _, _, _) ↦ absurd (cc (rw done at h))
    ]
handle_atomic actor list_request db why h = refl
handle_atomic actor (detail_request id) db why h = elim (detail-cases actor id db) [
  | inl (w, stopped) ↦ rw stopped
  | inr (d, done) ↦ rw done
]
handle_atomic actor (update_request id command) db why h = elim (update-cases actor id db command) [
  | inl (w, stopped) ↦ rw stopped
  | inr (e, done, _, _, _) ↦ absurd (cc (rw done at h))
]
handle_atomic actor (publish_request id now) db why h = elim (publish-cases actor id db now) [
  | inl (w, stopped) ↦ rw stopped
  | inr (e, done, _, _, _, _) ↦ absurd (cc (rw done at h))
]
handle_atomic actor (withdraw_request id now) db why h = elim (withdraw-cases actor id db now) [
  | inl (w, stopped) ↦ rw stopped
  | inr (e, done, _, _, _) ↦ absurd (cc (rw done at h))
]

-- the requests that are sent with POST or PATCH
abbrev pub is_change : ExamRequest → Bool
is_change list_request = false
is_change (detail_request id) = false
is_change _ = true

-- Students and parents are refused every request to create, update, publish or withdraw an exam,
-- and nothing is written.
pub handle_outsider :
    (actor : ActorContext) (request : ExamRequest) (db : Database)
    → is_change request ≡ true
    → (is_teacher actor.identity_type || is_staff actor.identity_type) ≡ false
    → handle actor request db ≡ (err (forbidden "A staff identity is required"), db)
unfolding handle create update publish withdraw mutable_exam assert_staff_actor
handle_outsider actor (create_request id ids command) db c h = ground arith
handle_outsider actor list_request db c h = absurd (cc)
handle_outsider actor (detail_request id) db c h = absurd (cc)
handle_outsider actor (update_request id command) db c h = ground arith
handle_outsider actor (publish_request id now) db c h = ground arith
handle_outsider actor (withdraw_request id now) db c h = ground arith

module _ (actor : ActorContext) (id : String) (now : ℕ) (db : Database) (e : Exam)
    (found : lookup id db.exams ≡ some e) where
  abbrev pub opened_exam : Exam
  opened_exam = record e { status = published; published_at = some now; withdrawn_at = none }

  publish_sound :
      (publish actor id now db).0 ≡ ok opened_exam
      → MayChange actor e × (e.status ≡ draft) × (0 < length (subjects_of actor.tenant_id id db))
  publish_sound h = elim (publish-cases actor id db now) [
    | inl (why, stopped) ↦ absurd (cc (rw stopped at h))
    | inr (e', done, stored, may, open_exam, some_subject) ↦
        let same : e' ≡ e = cc in
        (
          subst (MayChange actor) same may,
          is_draft-eq e.status (subst (λ (x : Exam). is_draft x.status ≡ true) same open_exam),
          ground arith,
        )
  ]

  publish_complete :
      MayChange actor e
      → e.status ≡ draft
      → 0 < length (subjects_of actor.tenant_id id db)
      → (publish actor id now db).0 ≡ ok opened_exam
  unfolding publish mutable_exam detail in_tenant is_draft
  publish_complete may open_exam some_subject = ground (
    arith,
    found,
    may.tenant,
    may.staff_like,
    may.owner,
    eq_iff e.tenant_id actor.tenant_id,
    eq_iff e.creator_id actor.person_id,
  )

  -- An exam can be published exactly when it is a draft with a subject that the actor may change,
  -- and then it becomes published now.
  pub publish_iff :
      ((publish actor id now db).0 ≡ ok opened_exam)
      ↔ (MayChange actor e × (e.status ≡ draft) × (0 < length (subjects_of actor.tenant_id id db)))
  publish_iff =
      (publish_sound, λ (may, open_exam, some_subject). publish_complete may open_exam some_subject)
