-- ===== src/Scores/Writes.antt =====
-- The table of scores after a grid has been written.
use widget_demo.Prelude.{
  String, Bool, true, false, ◌≡◌, refl, ◌⊎◌, inl, inr, Option, none, some, List, [], ◌∷◌, arith,
  find_last?, Bool-cases, HttpError, foreign_key_violation, ok, err,
}
use widget_demo.Exams.{has_person}
use widget_demo.Table.{string_eq, lookup, insert}
use widget_demo.Table.Laws.{lookup-insert}
use widget_demo.School.{ScoreKey, Score, Database, ActorContext, score_key_eq, same_score_key}
use widget_demo.Scores.{PreparedScoreCell, score_key, score_row, apply}

-- what the grid says of a key: its last cell with that key
abbrev pub written :
    ActorContext → String → List PreparedScoreCell → ScoreKey → Option Score → Option Score
written actor exam_id cells key old =
    elim (find_last? (λ cell. same_score_key (score_key actor exam_id cell) key) cells) [
      | some cell ↦ some (score_row actor cell)
      | none ↦ old
    ]

module _ (actor : ActorContext) (exam_id : String) where
  abbrev pub is_grader : Database → Bool
  is_grader db = has_person actor.tenant_id actor.person_id db

  lookup-apply :
      (cells : List PreparedScoreCell) (db : Database) (key : ScoreKey)
      → is_grader db ≡ true
      → lookup key (apply actor exam_id cells db).1.scores
        ≡ written actor exam_id cells key (lookup key db.scores)
  unfolding apply has_person
  lookup-apply [] db key known = refl
  lookup-apply (cell ∷ rest) db key known = ground (
    arith,
    lookup-apply rest
        (record db {
          scores = insert (score_key actor exam_id cell) (score_row actor cell) db.scores;
        })
        key known,
    lookup-insert (score_key actor exam_id cell) key (score_row actor cell) db.scores,
  )

  apply-result :
      (cells : List PreparedScoreCell) (db : Database)
      → is_grader db ≡ true
      → apply actor exam_id cells db
        ≡ (ok tt, record db { scores = (apply actor exam_id cells db).1.scores })
  unfolding apply has_person
  apply-result [] db known = refl
  apply-result (cell ∷ rest) db known = rw known (
      apply-result rest
        (record db {
          scores = insert (score_key actor exam_id cell) (score_row actor cell) db.scores;
        })
        known)

  apply-unknown :
      (cells : List PreparedScoreCell) (db : Database)
      → is_grader db ≡ false
      → (cells ≡ []) ⊎ (apply actor exam_id cells db ≡ (err foreign_key_violation, db))
  unfolding apply
  apply-unknown [] db unknown = inl refl
  apply-unknown (cell ∷ rest) db unknown = inr (rw unknown)

  -- A grader who is no person of the tenant stops at the first cell; otherwise all cells are written.
  pub apply-cases :
      (cells : List PreparedScoreCell) (db : Database)
      → ((why : HttpError) × (apply actor exam_id cells db ≡ (err why, db)))
        ⊎ (((cells ≡ []) ⊎ (is_grader db ≡ true))
            × (apply actor exam_id cells db
                ≡ (ok tt, record db { scores = (apply actor exam_id cells db).1.scores }))
            × ((key : ScoreKey)
                → lookup key (apply actor exam_id cells db).1.scores
                  ≡ written actor exam_id cells key (lookup key db.scores)))
  apply-cases cells db = elim (Bool-cases (is_grader db)) [
    | inl known ↦
        inr (inr known, apply-result cells db known, λ key. lookup-apply cells db key known)
    | inr unknown ↦ elim (apply-unknown cells db unknown) [
      | inl same ↦
          inr (inl same, rw same (unfold apply in refl), λ key. rw same (unfold apply in refl))
      | inr stopped ↦ inl (foreign_key_violation, stopped)
    ]
  ]
