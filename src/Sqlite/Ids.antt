-- ===== src/Sqlite/Ids.antt =====
-- The ids in the table `jobs` of src/keziah/queue/sqlite.py under the statements of the methods.
pub mod Settle
pub mod Claims
pub mod Maintain
pub mod Batches
use keziah.Base.{
  ℕ, zero, suc, ◌≡◌, refl, sym, ap, subst, ◌∙◌, arith, String, Bool, true, false, ◌&&◌, not, Option,
  none, some, List, [], ◌∷◌, ◌++◌, if◌then◌else◌, split_if, keep, contains, Distinct, ◌==◌,
  string_eq,
}
use keziah.Types.{Job, Fields}
use keziah.Memory.{Result, ok, err, Error, EventKind}
use keziah.Sqlite.Rows.{Codec, Row, row_of}
use keziah.Sqlite.Atomic.{Ran, tx-Ran}
use keziah.Sqlite.Statements.{update_where, delete_where, first_where, any_row}
use keziah.Sqlite.{Db, Body, tx, emit, has_id, require_job, update_jobs, delete_jobs}
use keziah.Sqlite.Lease.{ids_of}

-- The cases of a result.
pub split_result {ℓ κ μ} :
    {A : Type μ} {B : Type ℓ} (P : B → Type κ) (r : Result A) {f : Error → B} {g : A → B}
    → ((e : Error) → P (f e))
    → ((a : A) → P (g a))
    → P (elim r [ err e ↦ f e | ok a ↦ g a ])
split_result P (err e) h k = h e
split_result P (ok a) h k = k a

-- The cases of a test that the model splits by `elim`.
pub split_bool {ℓ κ} :
    {B : Type ℓ} (P : B → Type κ) (b : Bool) {x y : B}
    → P x
    → P y
    → P (elim b [ true ↦ x | false ↦ y ])
split_bool P true p q = p
split_bool P false p q = q

module _ (C : Codec) where
  -- No two rows have one id.
  abbrev pub Sound : Db C → Type 0
  Sound db = Distinct (ids_of C db.jobs)

  pub update_where-ids_of :
      (p : Row C → Bool) (f : Row C → Row C)
      → ((row : Row C) → (f row).job_id ≡ row.job_id)
      → (rows : List (Row C)) → ids_of C (update_where p f rows) ≡ ids_of C rows
  unfolding update_where
  update_where-ids_of p f same [] = refl
  update_where-ids_of p f same (row ∷ rows) =
      ground (arith, update_where-ids_of p f same rows, same row)

  absent-keep :
      (q : Row C → Bool) (key : String) (rows : List (Row C))
      → contains (ids_of C rows) key ≡ false
      → contains (ids_of C (keep q rows)) key ≡ false
  unfolding contains
  absent-keep q key [] h = refl
  absent-keep q key (row ∷ rows) h = ground (arith, absent-keep q key rows, h)

  pub keep-Distinct :
      (q : Row C → Bool) (rows : List (Row C))
      → Distinct (ids_of C rows)
      → Distinct (ids_of C (keep q rows))
  keep-Distinct q [] d = tt
  keep-Distinct q (row ∷ rows) d =
      split_if (λ (t : List (Row C)). Distinct (ids_of C t)) (q row)
        (λ _. (absent-keep q row.job_id rows d.0, keep-Distinct q rows d.1))
        (λ _. keep-Distinct q rows d.1)

  any_row-contains :
      (key : String) (rows : List (Row C))
      → any_row (has_id C key) rows ≡ contains (ids_of C rows) key
  unfolding first_where contains
  any_row-contains key [] = refl
  any_row-contains key (row ∷ rows) = ground (arith, any_row-contains key rows)

  contains-append :
      (key : String) (rows : List (Row C)) (row : Row C)
      → contains (ids_of C (rows ++ row ∷ [])) key
        ≡ (if row.job_id == key then true else contains (ids_of C rows) key)
  unfolding contains
  contains-append key [] row = ground arith
  contains-append key (r ∷ rows) row = ground (arith, contains-append key rows row)

  append-Distinct :
      (rows : List (Row C)) (row : Row C)
      → Distinct (ids_of C rows)
      → contains (ids_of C rows) row.job_id ≡ false
      → Distinct (ids_of C (rows ++ row ∷ []))
  unfolding contains
  append-Distinct [] row d h = (refl, tt)
  append-Distinct (r ∷ rows) row d h = (
    ground (
      arith,
      contains-append r.job_id rows row,
      d.0,
      h,
      string_eq.beq_iff r.job_id row.job_id,
      string_eq.beq_iff row.job_id r.job_id,
    ),
    append-Distinct rows row d.1 (ground (arith, h)),
  )

  -- What each statement does.
  pub update_jobs-Sound :
      (p : Row C → Bool) (f : Row C → Row C) (db : Db C)
      → ((row : Row C) → (f row).job_id ≡ row.job_id)
      → Sound db
      → Sound (update_jobs C p f db)
  update_jobs-Sound p f db same d = subst Distinct (sym (update_where-ids_of p f same db.jobs)) d

  pub tx-Sound :
      {A : Type 0} (busy : ℕ → Bool) (body : Body C A) (db : Db C)
      → Sound (body db).1
      → Sound db
      → Sound (tx C busy body db).1
  tx-Sound {A} busy body db after d = go (tx C busy body db) (tx-Ran C body db busy)
    where
      go : (r : Result A × Db C) → Ran C body db busy r → Sound r.1
      go (err e, t) same = subst Sound (sym same) d
      go (ok a, t) (ran, _) = subst (λ (x : Result A × Db C). Sound x.1) ran after
