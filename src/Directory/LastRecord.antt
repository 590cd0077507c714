-- ===== src/Directory/LastRecord.antt =====
-- What a synchronisation stores: of the records with an external identifier, the last one counts.
use widget_demo.Prelude.{
  String, Bool, true, false, ◌≡◌, refl, ap, ◌∙◌, some, List, [], ◌∷◌, ◌++◌, ◌&&◌, arith, inl, inr,
  ◌⊎◌, Bool-cases, ◌==◌, eq_iff, eq_refl, find?, All, or_else, Option,
}
use widget_demo.Table.{Table}
use widget_demo.School.{Classroom}
use widget_demo.Pages.{MasterDataRecord}
use widget_demo.Directory.{
  upsert_row, is_classroom, new_classroom, changed_classroom, record_id, sync_classes, text_field,
  is_active,
}

-- the row that a test finds in a table
abbrev pub found : {V : Type 0} → (V → Bool) → Table String V → Option (String × V)
found same rows = find? (λ row. same row.1) rows

module _ (new_id : String → String) (tenant_id : String) {V : Type 0} where
  upsert_row-found :
      (same : V → Bool) (eduplus_id : String) (create : V) (update : V → V) (rows : Table String V)
      → same create ≡ true
      → ((v : V) → same v ≡ true → same (update v) ≡ true)
      → (id : String) × (row : V) × (found same
            (upsert_row new_id tenant_id same eduplus_id create update rows)
          ≡ some (id, row))
        × ((row ≡ create) ⊎ ((v : V) × (row ≡ update v)))
  upsert_row-found same eduplus_id create update [] new kept =
      (new_id eduplus_id, create, rw new, inl refl)
  upsert_row-found same eduplus_id create update ((j, v) ∷ rows) new kept =
      elim (Bool-cases (same v)) [
        | inl here ↦ (j, update v, rw (here, kept v here) refl, inr (v, refl))
        | inr elsewhere ↦
            let (id, row, e, why) = upsert_row-found same eduplus_id create update rows new kept in
            (id, row, rw (elsewhere, elsewhere) e, why)
      ]

  upsert_row-found_other :
      (same other : V → Bool) (eduplus_id : String) (create : V) (update : V → V)
      (rows : Table String V)
      → other create ≡ false
      → ((v : V) → same v ≡ true → (other v ≡ false) × (other (update v) ≡ false))
      → found other (upsert_row new_id tenant_id same eduplus_id create update rows)
        ≡ found other rows
  upsert_row-found_other same other eduplus_id create update [] new apart = rw new refl
  upsert_row-found_other same other eduplus_id create update ((j, v) ∷ rows) new apart =
      elim (Bool-cases (same v)) [
        | inl here ↦ rw (here, (apart v here).0, (apart v here).1) refl
        | inr elsewhere ↦
            rw
              (elsewhere, upsert_row-found_other same other eduplus_id create update rows new apart)
      ]

module _ (tenant : String) (a b : String) where
  -- a row with one external identifier has no other one
  apart :
      (t e : String)
      → (a == b) ≡ false
      → (t == tenant && e == a) ≡ true
      → (t == tenant && e == b) ≡ false
  apart t e ne h = ground (arith, eq_iff e a, eq_iff e b, eq_iff a b)

module _ (new_id : String → String) (tenant_id : String) where
  -- the class of the record, with the record's columns
  pub record IsClass (item : MasterDataRecord) (rows : Table String Classroom) : Type 0 where
    pub id : String
    pub row : Classroom
    pub is_found : found (is_classroom new_id tenant_id (record_id item)) rows ≡ some (id, row)
    pub name : row.name ≡ or_else (text_field item "name") (record_id item)
    pub grade_name : row.grade_name ≡ text_field item "grade_code"
    pub active : row.active ≡ is_active item

  IsClass-after :
      (item : MasterDataRecord) (rows : Table String Classroom)
      → IsClass item (
          upsert_row new_id tenant_id
            (is_classroom new_id tenant_id (record_id item))
            (record_id item)
            (new_classroom new_id tenant_id item)
            (changed_classroom new_id tenant_id item)
            rows)
  IsClass-after item rows =
      let (id, row, e, why) =
        upsert_row-found new_id tenant_id (is_classroom new_id tenant_id (record_id item))
          (record_id item) (new_classroom new_id tenant_id item)
          (changed_classroom new_id tenant_id item) rows (rw (eq_refl, eq_refl) refl) (λ v h. h) in
      elim why [
        | inl made ↦ record {
          id = id;
          row = row;
          is_found = e;
          name = ap (λ r. r.name) made;
          grade_name = ap (λ r. r.grade_name) made;
          active = ap (λ r. r.active) made;
        }
        | inr (v, changed) ↦ record {
          id = id;
          row = row;
          is_found = e;
          name = ap (λ r. r.name) changed;
          grade_name = ap (λ r. r.grade_name) changed;
          active = ap (λ r. r.active) changed;
        }
      ]

  IsClass-later :
      (item : MasterDataRecord) (later : List MasterDataRecord) (rows : Table String Classroom)
      → All (λ r. (record_id r == record_id item) ≡ false) later
      → IsClass item rows
      → IsClass item (sync_classes new_id tenant_id later rows)
  unfolding sync_classes
  IsClass-later item [] rows other h = h
  IsClass-later item (r ∷ later) rows other h = IsClass-later item later _ other.1 (record {
    id = h.id;
    row = h.row;
    name = h.name;
    grade_name = h.grade_name;
    active = h.active;
    is_found =
        upsert_row-found_other new_id tenant_id (is_classroom new_id tenant_id (record_id r))
          (is_classroom new_id tenant_id (record_id item)) _ _ _ rows (rw (other.0, eq_refl) refl)
          (λ v same.
            let no =
              apart tenant_id (record_id r) (record_id item) v.tenant_id v.eduplus_id other.0
                same in
            (no, no))
        ∙ h.is_found;
  })

  -- After `syncClasses`, each record whose identifier no later record has is found as a class of
  -- the tenant, with the name, the grade and the activity that the record gives, whatever the table
  -- held before.
  pub sync_classes-IsClass :
      (before : List MasterDataRecord) (item : MasterDataRecord) (later : List MasterDataRecord)
      (rows : Table String Classroom)
      → All (λ r. (record_id r == record_id item) ≡ false) later
      → IsClass item (sync_classes new_id tenant_id (before ++ item ∷ later) rows)
  unfolding sync_classes
  sync_classes-IsClass [] item later rows other =
      IsClass-later item later _ other (IsClass-after item rows)
  sync_classes-IsClass (r ∷ before) item later rows other =
      sync_classes-IsClass before item later _ other
