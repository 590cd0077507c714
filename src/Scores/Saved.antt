-- ===== src/Scores/Saved.antt =====
-- `save` as a whole: which grids it writes, and what the tables hold afterwards.
use widget_demo.Prelude.{
  ℕ, String, ◌≡◌, ◌≢◌, refl, sym, ap, ◌∙◌, ◌⊎◌, inl, inr, true, some, List, [], HttpError, ok, err,
  length, arith,
}
use mathlib.Core.Path.{subst}
use widget_demo.Table.{string_eq, lookup}
use widget_demo.School.{Exam, ScoreKey, draft, Database, ActorContext, score_key_eq}
use widget_demo.Numbers.{Numbers}
use widget_demo.Scores.{ScoreCell, PreparedScoreCell, save}
use widget_demo.Scores.Accepted.{IsAccepted, validate-cases}
use widget_demo.Scores.Writes.{written, apply-cases}
use widget_demo.Exams.{has_person}

module _ (num : Numbers) (actor : ActorContext) (exam_id : String)
    (cells : List (ScoreCell num.Number)) (db : Database) where
  pub record IsSaved (n : ℕ) (after : Database) : Type 0 where
    pub prepared : List PreparedScoreCell
    pub accepted : IsAccepted num actor exam_id cells db prepared
    pub counted : n ≡ length prepared
    pub known_grader : (prepared ≡ []) ⊎ (has_person actor.tenant_id actor.person_id db ≡ true)
    pub scores :
        (key : ScoreKey)
        → lookup key after.scores ≡ written actor exam_id prepared key (lookup key db.scores)
    pub others : after ≡ record db { scores = after.scores }

  pub save-cases :
      ((why : HttpError) × (save num actor exam_id cells db ≡ (err why, db)))
      ⊎ ((n : ℕ) × (save num actor exam_id cells db ≡ (ok n, (save num actor exam_id cells db).1))
          × IsSaved n (save num actor exam_id cells db).1)
  unfolding save
  save-cases = elim (validate-cases num actor exam_id cells db) [
    | inl (why, stopped) ↦ inl (why, rw stopped)
    | inr (ps, done, accepted) ↦ elim (apply-cases actor exam_id ps db) [
      | inl (why, stopped) ↦ inl (why, rw (done, stopped))
      | inr (grader, wrote, rows) ↦ inr (
        length ps,
        rw (done, wrote),
        record {
          prepared = ps;
          accepted = accepted;
          counted = refl;
          known_grader = grader;
          scores = λ key. rw (done, wrote) (rows key);
          others = rw (done, wrote);
        },
      )
    ]
  ]

  -- A grid is saved only if every rule holds of every cell, and the grader of any cell is a person of
  -- the tenant; then each key of the grid holds what
  -- its last cell says, every other score and every other table is unchanged, and the number
  -- returned is that of the cells written.
  pub save_ok :
      (n : ℕ)
      → (save num actor exam_id cells db).0 ≡ ok n
      → IsSaved n (save num actor exam_id cells db).1
  save_ok n h = elim save-cases [
    | inl (why, stopped) ↦ absurd (cc (rw stopped at h))
    | inr (m, done, saved) ↦
        let same : m ≡ n = ground (arith, h, done) in
        subst (λ k. IsSaved k (save num actor exam_id cells db).1) same saved
  ]

  -- The scores of an exam that is no longer a draft cannot be changed.
  pub save_frozen :
      (exam : Exam)
      → lookup exam_id db.exams ≡ some exam
      → exam.status ≢ draft
      → (save num actor exam_id cells db).1 ≡ db
  save_frozen exam stored fixed = elim save-cases [
    | inl (w, stopped) ↦ rw stopped
    | inr (m, done, saved) ↦
        let same : saved.accepted.exam ≡ exam = cc (saved.accepted.stored, stored) in
        absurd (fixed (ap (λ (e : Exam). e.status) (sym same) ∙ saved.accepted.open_exam))
  ]
