-- ===== src/Sqlite/Abstract.antt =====
-- The table `jobs` of src/keziah/queue/sqlite.py as the dictionary of jobs that the in-memory queue
-- keeps, and what an `UPDATE` of the job under one id does to it.
use keziah.Base.{
  ◌≡◌, refl, sym, ap, subst, ◌∙◌, inl, inr, String, Bool, true, false, ◌&&◌, Option, none, some,
  List, [], ◌∷◌, arith, nat_eqb, if◌then◌else◌, Bool-cases, count, contains, Distinct, Dict, lookup,
  insert, ◌==◌, string_eq,
}
use keziah.Types.{Job}
use keziah.Memory.{ok, err, Error}
use keziah.Sqlite.Rows.{Codec, Row, to_job}
use keziah.Sqlite.Statements.{update_where, first_where}
use keziah.Sqlite.{Db, has_id, require_job, job_row}
use keziah.Sqlite.Lease.{ids_of}

-- A job under a key, replaced if it passes a test; and whether it does.
abbrev pub put_if : String → (Job → Bool) → (Job → Job) → Dict String Job → Dict String Job
put_if key c g m = elim (lookup key m) [
  | none ↦ m
  | some job ↦ if c job then insert key (g job) m else m
]

abbrev pub hit : String → (Job → Bool) → Dict String Job → Bool
hit key c m = elim (lookup key m) [ none ↦ false | some job ↦ c job ]

module _ (C : Codec) where
  -- The dictionary that a table stands for.
  abbrev pub jobs_dict : List (Row C) → Dict String Job
  jobs_dict [] = []
  jobs_dict (row ∷ rows) = (row.job_id, to_job C row) ∷ jobs_dict rows

  -- The row under an id is the job under that key.
  pub lookup-jobs_dict :
      (key : String) (rows : List (Row C))
      → lookup key (jobs_dict rows)
        ≡ (elim (first_where (has_id C key) rows) [ none ↦ none | some row ↦ some (to_job C row) ])
  unfolding lookup first_where
  lookup-jobs_dict key [] = refl
  lookup-jobs_dict key (row ∷ rows) = ground (arith, lookup-jobs_dict key rows)

  -- A job that is in the table is read back.
  pub require_job-jobs_dict :
      (key : String) (t : Db C) (job : Job)
      → lookup key (jobs_dict t.jobs) ≡ some job
      → require_job C key t ≡ ok job
  unfolding require_job job_row
  require_job-jobs_dict key t job e =
      go (first_where (has_id C key) t.jobs) (sym (lookup-jobs_dict key t.jobs) ∙ e)
    where
      go :
          (found : Option (Row C))
          → (elim found [ none ↦ none | some row ↦ some (to_job C row) ]) ≡ some job
          → (elim found [ none ↦ err Error.not_found | some row ↦ ok (to_job C row) ]) ≡ ok job
      go none e = cc
      go (some row) e = cc

  module _ (key : String) (c : Job → Bool) (f : Row C → Row C) where
    -- The `WHERE` clause of an update of one job.
    abbrev pub one_row : Row C → Bool
    one_row row = has_id C key row && c (to_job C row)

    update-absent :
        (rows : List (Row C))
        → contains (ids_of C rows) key ≡ false
        → update_where one_row f rows ≡ rows
    unfolding update_where contains
    update-absent [] h = refl
    update-absent (row ∷ rows) h = ground (arith, update-absent rows, h)

    count-absent :
        (rows : List (Row C)) → contains (ids_of C rows) key ≡ false → count one_row rows ≡ 0
    unfolding contains
    count-absent [] h = refl
    count-absent (row ∷ rows) h = ground (arith, count-absent rows, h)

    -- An `UPDATE` of one job hits one row if the job is there and passes the test, and else none.
    pub count-one_row :
        (rows : List (Row C))
        → Distinct (ids_of C rows)
        → nat_eqb (count one_row rows) 1 ≡ hit key c (jobs_dict rows)
    unfolding lookup contains
    count-one_row [] d = refl
    count-one_row (row ∷ rows) d =
        ground
          (arith, count-one_row rows d.1, count-absent rows, string_eq.beq_iff row.job_id key, d.0)

  -- A key that is not the first one's.
  put_if-cons :
      (key : String) (c : Job → Bool) (g : Job → Job) (k : String) (job : Job) (m : Dict String Job)
      → (k == key) ≡ false
      → put_if key c g ((k, job) ∷ m) ≡ (k, job) ∷ put_if key c g m
  unfolding lookup insert
  put_if-cons key c g k job m e = ground (arith, e)

  put_if-here :
      (key : String) (c : Job → Bool) (g : Job → Job) (k : String) (job : Job) (m : Dict String Job)
      → (k == key) ≡ true
      → put_if key c g ((k, job) ∷ m) ≡ (k, (if c job then g job else job)) ∷ m
  unfolding lookup insert
  put_if-here key c g k job m e = ground (arith, e)

  module _ (key : String) (c : Job → Bool) (f : Row C → Row C) (g : Job → Job)
      (sends : (row : Row C) → to_job C (f row) ≡ g (to_job C row))
      (same_id : (row : Row C) → (f row).job_id ≡ row.job_id) where
    -- An `UPDATE` of one job is an assignment in the dictionary.
    pub jobs_dict-update_where :
        (rows : List (Row C))
        → Distinct (ids_of C rows)
        → jobs_dict (update_where (one_row key c f) f rows) ≡ put_if key c g (jobs_dict rows)
    unfolding update_where lookup
    jobs_dict-update_where [] d = refl
    jobs_dict-update_where (row ∷ rows) d = elim (Bool-cases (row.job_id == key)) [
      | inr e ↦
          (λ i.
            jobs_dict ((if skip e i then f row else row) ∷ update_where (one_row key c f) f rows))
          ∙ (ap (λ m. (row.job_id, to_job C row) ∷ m) (jobs_dict-update_where rows d.1)
              ∙ sym (put_if-cons key c g row.job_id (to_job C row) (jobs_dict rows) e))
      | inl e ↦ here e (c (to_job C row)) refl
    ]
      where
        skip : (row.job_id == key) ≡ false → one_row key c f row ≡ false
        skip e = ground (arith, e)

        absent : (row.job_id == key) ≡ true → update_where (one_row key c f) f rows ≡ rows
        absent e = update-absent key c f rows (
            subst (λ k. contains (ids_of C rows) k ≡ false) ((string_eq.beq_iff row.job_id key).0 e)
              d.0)

        branch :
            (b : Bool)
            → jobs_dict ((if b then f row else row) ∷ rows)
              ≡ (row.job_id, (if b then g (to_job C row) else to_job C row)) ∷ jobs_dict rows
        branch true = λ i. (same_id row i, sends row i) ∷ jobs_dict rows
        branch false = refl

        here :
            (row.job_id == key) ≡ true
            → (b : Bool) → c (to_job C row) ≡ b
            → jobs_dict (update_where (one_row key c f) f (row ∷ rows))
              ≡ put_if key c g (jobs_dict (row ∷ rows))
        here e b h =
            (λ i. jobs_dict ((if (e i && h i) then f row else row) ∷ absent e i))
            ∙ (branch b
                ∙ sym (
                    (put_if-here key c g row.job_id (to_job C row) (jobs_dict rows) e) ∙ (λ i.
                      (row.job_id, (if h i then g (to_job C row) else to_job C row))
                      ∷ jobs_dict rows)))
