-- ===== src/Exams/Lifecycle.antt =====
-- How a request changes one exam: draft, published, withdrawn, in this order, by who may do it.
use widget_demo.Prelude.{
  ℕ, ◌+◌, String, ◌≡◌, refl, ◌⊎◌, inl, inr, List, [], ◌∷◌, true, false, Option, none, some, arith,
  eq_iff, Bool-cases, not, ◌&&◌, any, forbidden, not_found, HttpError, unique_violation,
  foreign_key_violation, Option-cases, Outcome-cases, Result, ok, err, is_some,
}
use widget_demo.Table.{string_eq, ◌=?◌, lookup, insert}
use widget_demo.Table.Laws.{lookup-insert}
use widget_demo.School.{
  ExamStatus, draft, published, withdrawn, Exam, Database, ActorContext, is_teacher, is_staff,
}
use widget_demo.Exams.{
  CreateExam, ExamDetail, assert_assignments, has_person, is_assigned, active_classroom, detail_of,
  CreateExamSubject, UpdateExam, new_subject, withdraw, create_rows, create_subjects, create_exam,
  create, list, detail, in_tenant, update, publish, put_exam, is_draft, is_published,
}
use widget_demo.Exams.Guards.{MayChange, update-cases, publish-cases, withdraw-cases}
use widget_demo.Exams.Requests.{
  ExamRequest, create_request, list_request, detail_request, update_request, publish_request,
  withdraw_request, handle,
}

-- What one request of the actor may do to the row of one exam.
pub data Step (actor : ActorContext) (before after : Option Exam) : Type 0 where
  untouched : after ≡ before → Step actor before after
  created :
      (e : Exam)
      → before ≡ none
      → after ≡ some e
      → e.tenant_id ≡ actor.tenant_id
      → e.creator_id ≡ actor.person_id
      → e.status ≡ draft
      → e.published_at ≡ none
      → e.withdrawn_at ≡ none
      → Step actor before after
  edited :
      (e e' : Exam)
      → before ≡ some e
      → after ≡ some e'
      → MayChange actor e
      → e.status ≡ draft
      → e' ≡ record e { title = e'.title; type = e'.type; exam_date = e'.exam_date }
      → Step actor before after
  opened :
      (e : Exam) (now : ℕ)
      → before ≡ some e
      → MayChange actor e
      → e.status ≡ draft
      → after ≡ some (record e { status = published; published_at = some now; withdrawn_at = none })
      → Step actor before after
  closed :
      (e : Exam) (now : ℕ)
      → before ≡ some e
      → MayChange actor e
      → e.status ≡ published
      → after ≡ some (record e { status = withdrawn; withdrawn_at = some now })
      → Step actor before after

pub is_draft-eq : (s : ExamStatus) → is_draft s ≡ true → s ≡ draft
unfolding is_draft
is_draft-eq s h = ground arith

is_published-eq : (s : ExamStatus) → is_published s ≡ true → s ≡ published
unfolding is_published
is_published-eq s h = ground arith

module _ (actor : ActorContext) (db : Database) where
  abbrev Moves : {A : Type 0} → String → Result HttpError A × Database → Type 0
  Moves j r = Step actor (lookup j db.exams) (lookup j r.1.exams)

  Moves-put :
      (id j : String) (e' : Exam)
      → Step actor (lookup id db.exams) (some e')
      → Moves j (put_exam id e' db)
  Moves-put id j e' s = elim (Bool-cases (id =? j)) [
    | inl same ↦ rw (lookup-insert, same, ← (eq_iff id j).0 same) s
    | inr other ↦ untouched (rw (lookup-insert, other))
  ]

  Moves-update : (id j : String) (command : UpdateExam) → Moves j (update actor id command db)
  Moves-update id j command = elim (update-cases actor id db command) [
    | inl (why, stopped) ↦ rw stopped (untouched refl)
    | inr (e, done, stored, may, open_exam) ↦
        rw done
          (Moves-put id j _ (edited e _ stored refl may (is_draft-eq e.status open_exam) refl))
  ]

  Moves-publish : (id j : String) (now : ℕ) → Moves j (publish actor id now db)
  Moves-publish id j now = elim (publish-cases actor id db now) [
    | inl (why, stopped) ↦ rw stopped (untouched refl)
    | inr (e, done, stored, may, open_exam, _) ↦
        rw done (Moves-put id j _ (opened e now stored may (is_draft-eq e.status open_exam) refl))
  ]

  Moves-withdraw : (id j : String) (now : ℕ) → Moves j (withdraw actor id now db)
  Moves-withdraw id j now = elim (withdraw-cases actor id db now) [
    | inl (why, stopped) ↦ rw stopped (untouched refl)
    | inr (e, done, stored, may, shown) ↦
        rw done (Moves-put id j _ (closed e now stored may (is_published-eq e.status shown) refl))
  ]

exams-create_rows :
    (ids : ℕ → String) (tenant_id exam_id : String) (index : ℕ) (subjects : List CreateExamSubject)
    (db : Database)
    → (create_rows ids tenant_id exam_id index subjects db).1.exams ≡ db.exams
unfolding create_rows
exams-create_rows ids tenant_id exam_id index [] db = refl
exams-create_rows ids tenant_id exam_id index (s ∷ rest) db = ground (
  arith,
  exams-create_rows ids tenant_id exam_id (index + 1) rest (record db {
    exam_subjects = insert (ids index) (new_subject tenant_id exam_id index s) db.exam_subjects;
  }),
)

exams-create_subjects :
    (ids : ℕ → String) (tenant_id exam_id : String) (subjects : List CreateExamSubject)
    (db : Database)
    → (create_subjects ids tenant_id exam_id subjects db).1.exams ≡ db.exams
unfolding create_subjects
exams-create_subjects ids tenant_id exam_id subjects db =
    ground (arith, exams-create_rows ids tenant_id exam_id 0 subjects db)

-- the checks only read
assert_assignments-cases :
    (actor : ActorContext) (classroom_id : String) (subjects : List CreateExamSubject)
    (db : Database)
    → ((why : HttpError) × (assert_assignments actor classroom_id subjects db ≡ (err why, db)))
      ⊎ (assert_assignments actor classroom_id subjects db ≡ (ok tt, db))
unfolding assert_assignments
assert_assignments-cases actor classroom_id [] db = inr refl
assert_assignments-cases actor classroom_id (s ∷ rest) db =
    elim (Bool-cases (
      not (is_staff actor.identity_type)
      && not (any (is_assigned actor classroom_id s.course_id) db.assignments))) [
        | inl refused ↦
            inl (forbidden "Teacher is not assigned to this class and subject", rw refused)
        | inr assigned ↦ rw assigned (assert_assignments-cases actor classroom_id rest db)
      ]

-- the row that `create` adds
abbrev pub new_exam : ActorContext → CreateExam → Exam
new_exam actor command = record {
  tenant_id = actor.tenant_id;
  is_demo = false;
  creator_id = actor.person_id;
  classroom_id = command.classroom_id;
  title = command.title;
  type = command.type;
  exam_date = command.exam_date;
  status = draft;
  published_at = none;
  withdrawn_at = none;
}

module _ (id : String) (ids : ℕ → String) (actor : ActorContext) (command : CreateExam)
    (db : Database) where
  abbrev tables : Database
  tables = record db { exams = insert id (new_exam actor command) db.exams }

  create_exam-cases :
      ((why : HttpError) × (create_exam actor id command db ≡ (err why, db)))
      ⊎ ((lookup id db.exams ≡ none)
          × (create_exam actor id command db ≡ (ok (new_exam actor command), tables)))
  unfolding create_exam
  create_exam-cases = elim (Bool-cases (is_some (lookup id db.exams))) [
    | inl taken ↦ inl (unique_violation, ground arith)
    | inr free ↦ elim (Bool-cases (has_person actor.tenant_id actor.person_id db)) [
      | inl known ↦ inr (ground arith, ground arith)
      | inr unknown ↦ inl (foreign_key_violation, ground arith)
    ]
  ]

  -- `create` raises and changes nothing, or it adds one draft of the actor under a new id.
  pub create-cases :
      ((why : HttpError) × (create id ids actor command db ≡ (err why, db)))
      ⊎ ((d : ExamDetail) × (create id ids actor command db
            ≡ (ok d, (create id ids actor command db).1))
          × (d.exam ≡ new_exam actor command)
          × (lookup id db.exams ≡ none)
          × ((create id ids actor command db).1.exams
              ≡ insert id (new_exam actor command) db.exams))
  unfolding create
  create-cases =
      elim (Bool-cases
        (not (is_teacher actor.identity_type) && not (is_staff actor.identity_type))) [
          | inl outsider ↦ inl (forbidden "A staff identity is required", rw outsider)
          | inr insider ↦
              elim (Bool-cases
                (active_classroom actor.tenant_id (lookup command.classroom_id db.classrooms))) [
                  | inr closed_room ↦
                      inl (not_found "Classroom was not found", rw (insider, closed_room))
                  | inl room ↦
                      elim (assert_assignments-cases actor command.classroom_id command.subjects
                        db) [
                          | inl (why, stopped) ↦ inl (why, rw (insider, room, stopped))
                          | inr passed ↦ elim create_exam-cases [
                            | inl (why, stopped) ↦ inl (why, rw (insider, room, passed, stopped))
                            | inr (free, added) ↦
                                elim (Outcome-cases (
                                  create_subjects ids actor.tenant_id id command.subjects tables)) [
                                    | inl (why, stopped) ↦
                                        inl (why, rw (insider, room, passed, added, stopped))
                                    | inr (u, filled) ↦ inr (
                                      detail_of actor.tenant_id id (new_exam actor command)
                                          (create_subjects ids actor.tenant_id id command.subjects
                                            tables).1,
                                      rw (insider, room, passed, added, filled),
                                      refl,
                                      free,
                                      rw (insider, room, passed, added, filled)
                                          (exams-create_subjects ids actor.tenant_id id
                                            command.subjects tables),
                                    )
                                  ]
                          ]
                        ]
                ]
        ]

  Moves-create : (j : String) → Moves actor db j (create id ids actor command db)
  Moves-create j = elim create-cases [
    | inl (why, stopped) ↦ rw stopped (untouched refl)
    | inr (d, done, same, free, rows) ↦ elim (Bool-cases (id =? j)) [
      | inl here ↦
          created (new_exam actor command) (rw (← (eq_iff id j).0 here) free)
            (rw (rows, lookup-insert, here)) refl refl refl refl refl
      | inr other ↦ untouched (rw (rows, lookup-insert, other))
    ]
  ]

-- a detail is only read
pub detail-cases :
    (actor : ActorContext) (id : String) (db : Database)
    → ((why : HttpError) × (detail actor id db ≡ (err why, db)))
      ⊎ ((d : ExamDetail) × (detail actor id db ≡ (ok d, db)))
unfolding detail
detail-cases actor id db = elim (Option-cases (in_tenant actor.tenant_id (lookup id db.exams))) [
  | inl missing ↦ inl (not_found "Exam was not found", rw missing)
  | inr (e, found) ↦ inr (detail_of actor.tenant_id id e db, rw found)
]

-- Whatever the request and however it ends, each exam is left as it was, is created as a draft of
-- the actor's tenant, or makes one step of its life cycle on behalf of an actor who may change it.
pub handle-Step :
    (actor : ActorContext) (request : ExamRequest) (db : Database) (j : String)
    → Step actor (lookup j db.exams) (lookup j (handle actor request db).1.exams)
unfolding handle list
handle-Step actor (create_request id ids command) db j =
    elim (Outcome-cases (create id ids actor command db)) [
      | inl (why, stopped) ↦ rw stopped (Moves-create id ids actor command db j)
      | inr (d, done) ↦ rw done (Moves-create id ids actor command db j)
    ]
handle-Step actor list_request db j = untouched refl
handle-Step actor (detail_request id) db j = elim (detail-cases actor id db) [
  | inl (why, stopped) ↦ rw stopped (untouched refl)
  | inr (d, done) ↦ rw done (untouched refl)
]
handle-Step actor (update_request id command) db j =
    elim (Outcome-cases (update actor id command db)) [
      | inl (why, stopped) ↦ rw stopped (Moves-update actor db id j command)
      | inr (e, done) ↦ rw done (Moves-update actor db id j command)
    ]
handle-Step actor (publish_request id now) db j = elim (Outcome-cases (publish actor id now db)) [
  | inl (why, stopped) ↦ rw stopped (Moves-publish actor db id j now)
  | inr (e, done) ↦ rw done (Moves-publish actor db id j now)
]
handle-Step actor (withdraw_request id now) db j = elim (Outcome-cases (withdraw actor id now db)) [
  | inl (why, stopped) ↦ rw stopped (Moves-withdraw actor db id j now)
  | inr (e, done) ↦ rw done (Moves-withdraw actor db id j now)
]
