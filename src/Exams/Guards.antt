-- ===== src/Exams/Guards.antt =====
-- What has been checked when the guards of exams.service.ts let a request through.
use widget_demo.Prelude.{
  ℕ, String, ◌≡◌, ◌⊎◌, inl, inr, true, false, not, ◌&&◌, ◌||◌, some, arith, ◌==◌, eq_iff,
  Bool-cases, Option-cases, none, or_else, length, ◌=ℕ◌, HttpError, forbidden, not_found, ok, err,
}
use widget_demo.Table.{string_eq, lookup}
use widget_demo.School.{published, withdrawn, Exam, Database, ActorContext, is_teacher, is_staff}
use widget_demo.Exams.{
  in_tenant, detail_of, detail, mutable_exam, is_draft, is_published, withdraw, put_exam, update,
  publish, UpdateExam, subjects_of,
}

-- The actor may change this exam: a staff member of its tenant, or the teacher who created it.
pub record MayChange (actor : ActorContext) (e : Exam) : Type 0 where
  pub tenant : e.tenant_id ≡ actor.tenant_id
  pub staff_like : (is_teacher actor.identity_type || is_staff actor.identity_type) ≡ true
  pub owner : is_teacher actor.identity_type ≡ true → e.creator_id ≡ actor.person_id

module _ (actor : ActorContext) (id : String) (db : Database) where
  detail-cases :
      (detail actor id db ≡ (err (not_found "Exam was not found"), db))
      ⊎ ((e : Exam) × (detail actor id db ≡ (ok (detail_of actor.tenant_id id e db), db))
          × (lookup id db.exams ≡ some e)
          × (e.tenant_id ≡ actor.tenant_id))
  unfolding detail
  detail-cases = elim (Option-cases (lookup id db.exams)) [
    | inl missing ↦ inl (rw (missing, in_tenant))
    | inr (e, found) ↦ elim (Bool-cases (e.tenant_id == actor.tenant_id)) [
      | inl own ↦ inr (e, rw (found, in_tenant, own), found, (eq_iff _ _).0 own)
      | inr other ↦ inl (rw (found, in_tenant, other))
    ]
  ]

  -- A request for an exam stops in the guards and changes nothing, or it has found an exam that
  -- the actor may change.
  pub mutable_exam-cases :
      ((why : HttpError) × (mutable_exam actor id db ≡ (err why, db)))
      ⊎ ((e : Exam) × (mutable_exam actor id db ≡ (ok (detail_of actor.tenant_id id e db), db))
          × (lookup id db.exams ≡ some e)
          × MayChange actor e
          × (is_draft e.status ≡ true))
  unfolding mutable_exam
  mutable_exam-cases =
      elim (Bool-cases (is_teacher actor.identity_type || is_staff actor.identity_type)) [
        | inr outsider ↦ inl (forbidden "A staff identity is required", ground arith)
        | inl staff_like ↦ elim detail-cases [
          | inl missing ↦ inl (not_found "Exam was not found", ground arith)
          | inr (e, found, stored, tenant) ↦
              elim (Bool-cases
                (is_teacher actor.identity_type && not (e.creator_id == actor.person_id))) [
                  | inl stranger ↦
                      inl (forbidden "Only the creating teacher may change this exam", ground arith)
                  | inr owner ↦ elim (Bool-cases (is_draft e.status)) [
                    | inr fixed ↦ inl (forbidden "Only draft exams may be changed", ground arith)
                    | inl open_exam ↦ inr (
                      e,
                      ground arith,
                      stored,
                      record {
                        tenant = tenant;
                        staff_like = staff_like;
                        owner = λ t. (eq_iff _ _).0 (ground arith);
                      },
                      open_exam,
                    )
                  ]
                ]
        ]
      ]

  pub withdraw-cases :
      (now : ℕ)
      → ((why : HttpError) × (withdraw actor id now db ≡ (err why, db)))
        ⊎ ((e : Exam) × (withdraw actor id now db
              ≡ put_exam id (record e { status = withdrawn; withdrawn_at = some now }) db)
            × (lookup id db.exams ≡ some e)
            × MayChange actor e
            × (is_published e.status ≡ true))
  unfolding withdraw
  withdraw-cases now =
      elim (Bool-cases (is_teacher actor.identity_type || is_staff actor.identity_type)) [
        | inr outsider ↦ inl (forbidden "A staff identity is required", ground arith)
        | inl staff_like ↦ elim detail-cases [
          | inl missing ↦ inl (not_found "Exam was not found", ground arith)
          | inr (e, found, stored, tenant) ↦
              elim (Bool-cases
                (is_teacher actor.identity_type && not (e.creator_id == actor.person_id))) [
                  | inl stranger ↦
                      inl (forbidden "Only the creating teacher may change this exam", ground arith)
                  | inr owner ↦ elim (Bool-cases (is_published e.status)) [
                    | inr other ↦
                        inl (forbidden "Only published exams may be withdrawn", ground arith)
                    | inl shown ↦ inr (
                      e,
                      ground arith,
                      stored,
                      record {
                        tenant = tenant;
                        staff_like = staff_like;
                        owner = λ t. (eq_iff _ _).0 (ground arith);
                      },
                      shown,
                    )
                  ]
                ]
        ]
      ]

  pub update-cases :
      (command : UpdateExam)
      → ((why : HttpError) × (update actor id command db ≡ (err why, db)))
        ⊎ ((e : Exam) × (update actor id command db
              ≡ put_exam id
                  (record e {
                    title = or_else command.title e.title;
                    type = or_else command.type e.type;
                    exam_date = or_else command.exam_date e.exam_date;
                  })
                  db)
            × (lookup id db.exams ≡ some e)
            × MayChange actor e
            × (is_draft e.status ≡ true))
  unfolding update
  update-cases command = elim mutable_exam-cases [
    | inl (why, stopped) ↦ inl (why, rw stopped)
    | inr (e, found, rest, may, open_exam) ↦ inr (e, rw found, rest, may, open_exam)
  ]

  pub publish-cases :
      (now : ℕ)
      → ((why : HttpError) × (publish actor id now db ≡ (err why, db)))
        ⊎ ((e : Exam) × (publish actor id now db
              ≡ put_exam id
                  (record e { status = published; published_at = some now; withdrawn_at = none })
                  db)
            × (lookup id db.exams ≡ some e)
            × MayChange actor e
            × (is_draft e.status ≡ true)
            × ((length (subjects_of actor.tenant_id id db) =ℕ 0) ≡ false))
  unfolding publish
  publish-cases now = elim mutable_exam-cases [
    | inl (why, stopped) ↦ inl (why, rw stopped)
    | inr (e, found, stored, may, open_exam) ↦
        elim (Bool-cases (length (subjects_of actor.tenant_id id db) =ℕ 0)) [
          | inl empty ↦ inl (forbidden "At least one subject is required", rw (found, empty))
          | inr some_subject ↦
              inr (e, rw (found, some_subject), stored, may, open_exam, some_subject)
        ]
  ]
