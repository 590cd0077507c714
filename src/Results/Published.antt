-- ===== src/Results/Published.antt =====
-- Which exams the results of a student show, and how many.
use mathlib.Core.List.{Memᴰ, Perm, reverse}
use mathlib.Core.List.Perm
use mathlib.Core.Path.{subst}
use widget_demo.Prelude.{
  ℕ, String, ◌≡◌, refl, sym, ap, ◌∙◌, Bool, true, not, Option, none, some, List, [], ◌++◌, arith,
  map, take, filter, ◌==◌, eq_iff, inl, inr, ltb, if◌then◌else◌, length, All, ok,
}
use widget_demo.Prelude.Search.{filter_sound, any_sound, any_of_mem}
use widget_demo.Prelude.Every.{
  All_of_mem, All-take, All-append, All-reverse, length-reverse, length-take,
}
use widget_demo.Sorting.{sort, sort-perm, All-sort}
use widget_demo.Sorting.Ordered.{IsTotal, IsSorted, sort-IsSorted}
use widget_demo.Sorting.Selected.{
  drop, take-drop, reverse-perm, filter-split, length-take-drop, append-nil, map-reverse, All-imp,
  All-drop, take-IsSorted, take_before, reverse-IsSorted,
}
use widget_demo.School.{ExamStatus, published, Exam, Database, ActorContext}
use widget_demo.Numbers.{Numbers}
use widget_demo.Exams.{is_published}
use widget_demo.Results.{
  Collation, ExamResult, ScoreRow, bounded_limit, scores_of, is_earlier, exam_result, shows,
  select_exams, read_results, for_student,
}
use widget_demo.Results.Access.{assert_access-cases}

pub is_published-eq : (s : ExamStatus) → is_published s ≡ true → s ≡ published
unfolding is_published
is_published-eq s h = ground arith

-- the limit asked for, but at least 1 and at most 50
abbrev pub nearest_limit : ℕ → ℕ
nearest_limit limit = if ltb limit 1 then 1 else if ltb limit 50 then limit else 50

-- all that there are, or at most the nearest limit
abbrev pub how_many : Option ℕ → ℕ → ℕ
how_many none n = n
how_many (some limit) n = if ltb n (nearest_limit limit) then n else nearest_limit limit

bounded_limit_lem : (limit : ℕ) → bounded_limit limit ≡ nearest_limit limit
unfolding bounded_limit
bounded_limit_lem limit = ground arith

-- the order of the exams by date and identifier, if the database orders texts
is_earlier-IsTotal : (order : Collation) → IsTotal order.column_le → IsTotal (is_earlier order)
unfolding is_earlier
is_earlier-IsTotal order texts = record {
  trans = λ a b c h k. ground (arith, texts.trans a.0 b.0 c.0);
  total = λ a b h. ground (arith, texts.total a.0 b.0);
}

module _ (num : Numbers) (order : Collation) (actor : ActorContext) (student_id : String)
    (db : Database) where
  -- a published exam of the tenant in which the student has a score
  pub record IsVisible (exam : String × Exam) : Type 0 where
    pub tenant : exam.1.tenant_id ≡ actor.tenant_id
    pub is_public : exam.1.status ≡ published
    pub score : ScoreRow
    pub scored : Memᴰ score (scores_of actor.tenant_id exam.0 db)
    pub student : score.0.student_id ≡ student_id

  -- the exams fall into those that are shown, those that the limit leaves out, and those that the
  -- student does not see; the first are in order, and each is at least as late as each of the second
  pub record AreShown (limit : Option ℕ) (results : List (ExamResult num.Number)) : Type 0 where
    pub shown_exams : List (String × Exam)
    pub left_out : List (String × Exam)
    pub hidden : List (String × Exam)
    pub all_exams : Perm ((shown_exams ++ left_out) ++ hidden) db.exams
    pub visible : All IsVisible (shown_exams ++ left_out)
    pub invisible : All (λ e. ¬ IsVisible e) hidden
    pub computed : results ≡ map (exam_result num order actor.tenant_id student_id db) shown_exams
    pub count : length shown_exams ≡ how_many limit (length (shown_exams ++ left_out))
    pub in_order : IsSorted (is_earlier order) shown_exams
    pub latest : All (λ r. All (λ e. is_earlier order r e ≡ true) shown_exams) left_out

  abbrev is_shown : String × Exam → Bool
  is_shown = shows num order actor.tenant_id student_id db

  abbrev seen : List (String × Exam)
  seen = filter is_shown db.exams

  abbrev unseen : List (String × Exam)
  unseen = filter (λ e. not (is_shown e)) db.exams

  shows-IsVisible : (e : String × Exam) → is_shown e ≡ true → IsVisible e
  unfolding shows
  shows-IsVisible e test =
      let (s, scored, same) =
        any_sound (λ (s : ScoreRow). s.0.student_id == student_id)
          (scores_of actor.tenant_id e.0 db) (ground (arith, test)) in
      record {
        tenant = (eq_iff _ _).0 (ground (arith, test));
        is_public = is_published-eq e.1.status (ground (arith, test));
        score = s;
        scored = scored;
        student = (eq_iff _ _).0 same;
      }

  IsVisible-shows : (e : String × Exam) → IsVisible e → is_shown e ≡ true
  unfolding shows is_published
  IsVisible-shows e v =
      let found =
        any_of_mem (λ (s : ScoreRow). s.0.student_id == student_id)
          (scores_of actor.tenant_id e.0 db) v.scored ((eq_iff _ _).1 v.student) in
      rw ((eq_iff _ _).1 v.tenant, v.is_public, found)

  all-IsVisible : All IsVisible seen
  all-IsVisible =
      All_of_mem IsVisible seen
        (λ e m. let (test, known) = filter_sound is_shown db.exams m in shows-IsVisible e test)

  all-invisible : All (λ e. ¬ IsVisible e) unseen
  all-invisible =
      All_of_mem (λ e. ¬ IsVisible e) unseen
        (λ e m v.
          let (test, known) = filter_sound (λ x. not (is_shown x)) db.exams m in
          absurd (cc (rw (IsVisible-shows e v) at test)))

  split-of :
      (shown rest : List (String × Exam))
      → Perm (shown ++ rest) seen
      → Perm ((shown ++ rest) ++ unseen) db.exams
  split-of shown rest p = Perm.trans (Perm.append_right unseen p) (filter-split is_shown db.exams)

  module _ (texts : IsTotal order.column_le) where
    abbrev later_first : String × Exam → String × Exam → Bool
    later_first a b = is_earlier order b a

    abbrev newest : List (String × Exam)
    newest = sort later_first seen

    newest-IsSorted : IsSorted later_first newest
    newest-IsSorted =
        let total = is_earlier-IsTotal order texts in
        sort-IsSorted later_first
          (record {
            trans = λ a b c h k. total.trans c b a k h;
            total = λ a b h. total.total b a h;
          })
          seen

    read-AreShown :
        (limit : Option ℕ) → AreShown limit (read_results num order actor student_id limit db)
    unfolding read_results select_exams
    read-AreShown none =
        let shown = sort (is_earlier order) seen in
        let p : Perm (shown ++ []) seen = rw append-nil (sort-perm (is_earlier order) seen) in
        record {
          shown_exams = shown;
          left_out = [];
          hidden = unseen;
          all_exams = split-of shown [] p;
          visible = rw append-nil (All-sort (is_earlier order) IsVisible seen all-IsVisible);
          invisible = all-invisible;
          computed = refl;
          count = rw append-nil refl;
          in_order = sort-IsSorted (is_earlier order) (is_earlier-IsTotal order texts) seen;
          latest = tt;
        }
    read-AreShown (some limit) =
        let n = bounded_limit limit in
        let kept = take n newest in
        let rest = drop n newest in
        let whole : Perm (reverse kept ++ rest) newest =
          rw (take-drop n newest) at (reverse-perm kept rest) in
        record {
          shown_exams = reverse kept;
          left_out = rest;
          hidden = unseen;
          all_exams = split-of (reverse kept) rest (Perm.trans whole (sort-perm later_first seen));
          visible =
              All-append IsVisible (reverse kept) rest
                (All-reverse IsVisible kept
                  (All-take IsVisible n newest (All-sort later_first IsVisible seen all-IsVisible)))
                (All-drop IsVisible n newest (All-sort later_first IsVisible seen all-IsVisible));
          invisible = all-invisible;
          computed = sym (map-reverse _ kept);
          count =
              length-reverse kept
              ∙ length-take n newest
              ∙ ap (λ k. if ltb (length newest) k then length newest else k)
                  (bounded_limit_lem limit)
              ∙ ap (how_many (some limit)) (sym (length-take-drop n newest));
          in_order =
              reverse-IsSorted (is_earlier order) kept
                (take-IsSorted later_first n newest newest-IsSorted);
          latest =
              All-imp _ _ (λ r before. All-reverse (λ e. is_earlier order r e ≡ true) kept before)
                rest (take_before later_first n newest newest-IsSorted);
        }

    -- If the database's order of texts is total, the results that a student or parent gets are
    -- those of exams of the database, by date and identifier. Each exam is either shown once, or left
    -- out by the limit, or hidden. The first two are published exams of the tenant in which the
    -- student has a score, and no hidden one is. Without a limit none is left out; with a limit,
    -- which counts as 1 if it is less and as 50 if it is more, as many are shown as it allows, and
    -- none that is left out is later than a shown one.
    pub for_student-AreShown :
        (limit : Option ℕ) (results : List (ExamResult num.Number))
        → (for_student num order actor student_id limit db).0 ≡ ok results
        → AreShown limit results
    unfolding for_student
    for_student-AreShown limit results h = elim (assert_access-cases actor student_id db) [
      | inl (why, stopped, stranger) ↦ absurd (cc (rw stopped at h))
      | inr (passed, may) ↦
          let same : read_results num order actor student_id limit db ≡ results =
            cc (rw passed at h) in
          subst (AreShown limit) same (read-AreShown limit)
    ]
