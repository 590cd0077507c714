-- ===== src/Results/Ranks.antt =====
-- The rank that a family reads beside a score.
use mathlib.Core.List.{Memᴰ}
use mathlib.Core.Path.{subst}
use widget_demo.Prelude.{
  ℕ, ◌+◌, String, ◌≡◌, refl, sym, ap, ◌∙◌, false, ◌&&◌, Bool, Option, none, some, List, [], ◌∷◌,
  map, arith, filter, count_if, find?, ◌==◌, eq_iff, Option-cases, Bool-cases, inl, inr,
}
use widget_demo.Prelude.Search.{
  filter_sound, filter-complete, find?_sound, find?-none, mem-map, mem-map_sound, mem-filter_some,
  mem-filter_some_sound,
}
use widget_demo.Prelude.Every.{All_mem}
use widget_demo.Numbers.{Numbers}
use widget_demo.Ranking.{Row, RankedRow, competition_ranks}
use widget_demo.Ranking.Order.{IsOrder, count_above}
use widget_demo.Ranking.Places.{competition_ranks-count_above, mem-ranked, ranked-mem}
use widget_demo.Results.{
  Collation, ScoreRow, comparison, value_row, values_of, rank_in, subject_rank,
}

module _ (num : Numbers) (order : Collation) where
  -- a row of the subject with a greater value
  abbrev pub beats : String → ℕ → ScoreRow → Bool
  beats subject_id v t = elim t.1.value [
    | none ↦ false
    | some w ↦ t.0.subject_id == subject_id && num.lt (num.of_decimal v) (num.of_decimal w)
  ]

  count_above-values_of :
      (subject_id : String) (v : ℕ) (rows : List ScoreRow)
      → count_above
          (comparison num order)
          (num.of_decimal v)
          (values_of num order (filter (λ s. s.0.subject_id == subject_id) rows))
        ≡ count_if (beats subject_id v) rows
  unfolding values_of value_row
  count_above-values_of subject_id v [] = refl
  count_above-values_of subject_id v ((k, s) ∷ rows) =
      let rest = count_above-values_of subject_id v rows in
      elim (Bool-cases (k.subject_id == subject_id)) [
        | inr other ↦ ground (arith, rest, other)
        | inl same ↦ elim (Option-cases s.value) [
          | inl missing ↦ rw (same, missing) rest
          | inr (w, given) ↦ rw (same, given) (ground (arith, rest, same))
        ]
      ]

  some_injective : {A : Type 0} {a b : A} → some a ≡ some b → a ≡ b
  some_injective h = cc

  value_row-eq-some :
      (s : ScoreRow) (w : Row num.Number)
      → some w ≡ value_row num order s
      → (v : ℕ) × (s.1.value ≡ some v)
        × (w ≡ record { id = s.0.student_id; value = num.of_decimal v })
  unfolding value_row
  value_row-eq-some s w h = elim (Option-cases s.1.value) [
    | inl missing ↦ absurd (cc (rw missing at h))
    | inr (v, given) ↦ (v, given, some_injective (rw given at h))
  ]

  value_row-some :
      (s : ScoreRow) (v : ℕ)
      → s.1.value ≡ some v
      → some (record { id = s.0.student_id; value = num.of_decimal v }) ≡ value_row num order s
  unfolding value_row
  value_row-some s v h = rw h

  rank_in-find :
      (student_id : String) (ranks : List (RankedRow num.Number)) (k : ℕ)
      → rank_in num order student_id ranks ≡ some k
      → (r : RankedRow num.Number) × (find?
            (λ (r : RankedRow num.Number). r.row.id == student_id)
            ranks
          ≡ some r)
        × (r.rank ≡ k)
  unfolding rank_in
  rank_in-find student_id ranks k h =
      elim (Option-cases (find? (λ (r : RankedRow num.Number). r.row.id == student_id) ranks)) [
        | inl missing ↦ absurd (cc (rw missing at h))
        | inr (r, found) ↦ (r, found, some_injective (rw found at h))
      ]

  rank_in-eq-none :
      (student_id : String) (ranks : List (RankedRow num.Number))
      → rank_in num order student_id ranks ≡ none
      → find? (λ (r : RankedRow num.Number). r.row.id == student_id) ranks ≡ none
  unfolding rank_in
  rank_in-eq-none student_id ranks h =
      elim (Option-cases (find? (λ (r : RankedRow num.Number). r.row.id == student_id) ranks)) [
        | inl missing ↦ missing
        | inr (r, found) ↦ absurd (cc (rw found at h))
      ]

  -- the student's values in the subject
  pub record HasValue (student_id subject_id : String) (rows : List ScoreRow) (v : ℕ) : Type 0 where
    pub row : ScoreRow
    pub known : Memᴰ row rows
    pub student : row.0.student_id ≡ student_id
    pub subject : row.0.subject_id ≡ subject_id
    pub value : row.1.value ≡ some v

module _ (num : Numbers) (order : Collation) (o : IsOrder (comparison num order))
    (student_id subject_id : String) (rows : List ScoreRow) where
  abbrev values : List (Row num.Number)
  values = values_of num order (filter (λ s. s.0.subject_id == subject_id) rows)

  value_of_row :
      (w : Row num.Number)
      → w.id ≡ student_id
      → Memᴰ w values
      → (v : ℕ) × HasValue num order student_id subject_id rows v × (w.value ≡ num.of_decimal v)
  unfolding values_of
  value_of_row w same m =
      let (s, kept, e) = mem-map_sound (value_row num order) _ (mem-filter_some_sound _ m) in
      let (test, known) = filter_sound (λ (s : ScoreRow). s.0.subject_id == subject_id) rows kept in
      let (v, given, made) = value_row-eq-some num order s w e in
      (
        v,
        record {
          row = s;
          known = known;
          student = ap (λ (r : Row num.Number). r.id) (sym made) ∙ same;
          subject = (eq_iff _ _).0 test;
          value = given;
        },
        ap (λ (r : Row num.Number). r.value) made,
      )

  -- A rank beside a subject is one more than the number of scores of the exam in that subject that
  -- are greater than a score of the student in it.
  pub subject_rank-count :
      (k : ℕ)
      → subject_rank num order student_id subject_id rows ≡ some k
      → (v : ℕ) × HasValue num order student_id subject_id rows v
        × (k ≡ 1 + count_if (beats num order subject_id v) rows)
  unfolding subject_rank
  subject_rank-count k h =
      let ranks = competition_ranks (comparison num order) values in
      let (r, found, same) = rank_in-find num order student_id ranks k h in
      let (its_own, ranked) =
        find?_sound (λ (q : RankedRow num.Number). q.row.id == student_id) ranks found in
      let (v, has, e) =
        value_of_row r.row ((eq_iff _ _).0 its_own)
          (mem-ranked (comparison num order) o values ranked) in
      let place : r.rank ≡ 1 + count_above (comparison num order) r.row.value values =
        All_mem
          (λ (q : RankedRow num.Number).
            q.rank ≡ 1 + count_above (comparison num order) q.row.value values)
          ranks (competition_ranks-count_above (comparison num order) o values).0 ranked in
      (
        v,
        has,
        sym same
            ∙ place
            ∙ ap (λ x. 1 + count_above (comparison num order) x values) e
            ∙ ap (λ n. 1 + n) (count_above-values_of num order subject_id v rows),
      )

  -- A student without a rank in a subject has no score in it.
  pub subject_rank-none :
      subject_rank num order student_id subject_id rows ≡ none
      → (v : ℕ) → ¬ HasValue num order student_id subject_id rows v
  unfolding subject_rank values_of
  subject_rank-none h v has =
      let ranks = competition_ranks (comparison num order) values in
      let missing = rank_in-eq-none num order student_id ranks h in
      let kept =
        filter-complete (λ (s : ScoreRow). s.0.subject_id == subject_id) rows has.known
          ((eq_iff _ _).1 has.subject) in
      let listed = mem-filter_some _ (
        subst
          (λ (x : Option (Row num.Number)). Memᴰ x (
            map (value_row num order)
              (filter (λ (s : ScoreRow). s.0.subject_id == subject_id) rows)))
          (sym (value_row-some num order has.row v has.value))
          (mem-map (value_row num order) _ kept)) in
      let (r, ranked, e) = ranked-mem (comparison num order) o values listed in
      absurd (
        cc (
          find?-none (λ (q : RankedRow num.Number). q.row.id == student_id) ranks missing ranked,
          (eq_iff r.row.id student_id).1 (ap (λ (w : Row num.Number). w.id) (sym e) ∙ has.student),
        ))
