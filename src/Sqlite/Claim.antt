-- ===== src/Sqlite/Claim.antt =====
-- Claims of src/keziah/queue/sqlite.py: the `WHERE` of a claim is `claimable` of
-- src/keziah/queue/common.py, and a claim that wins changes the one job that it returns.
use keziah.Base.{
  ℕ, nat_eqb, ◌≡◌, refl, sym, ap, subst, ◌∙◌, arith, String, Bool, true, false, ◌&&◌, Option, none,
  some, List, [], ◌∷◌, if◌then◌else◌, split_if, Distinct, Dict, lookup, insert, keys,
  insert-Distinct, string_eq, option_eq, lookup-insert_self,
}
use keziah.Types.{Job}
use keziah.Memory.{Result, ok, err, claimable}
use keziah.Memory.Lease.{claimed_job}
use keziah.Sqlite.Rows.{Codec, Row, to_job}
use keziah.Sqlite.{Db, has_id, emit, rowcount, row_claimable, gate_open}
use keziah.Sqlite.Statements.{update_where}
use keziah.Sqlite.Lease.{
  ids_of, claim_where, claimed_row, claim_sql, some_job, after_claim, claim_by_id_run, claim_by_id,
}
use keziah.Sqlite.Atomic.{tx-runs}
use keziah.Sqlite.Abstract.{
  put_if, hit, jobs_dict, one_row, count-one_row, jobs_dict-update_where, require_job-jobs_dict,
}

module _ (C : Codec) (now : ℕ) (db : Db C) where
  -- `claimable` with the gate that the tables give.
  abbrev pub open_job : Job → Bool
  open_job job = claimable job now (gate_open C db.batches job.batch_id)

  row_claimable-claimable :
      (row : Row C) → row_claimable C now db.batches row ≡ open_job (to_job C row)
  unfolding claimable
  row_claimable-claimable row = ground arith

  module _ (key owner : String) (lease_until : ℕ) (distinct : Distinct (ids_of C db.jobs)) where
    same_where :
        claim_where C key now db ≡ one_row C key open_job (claimed_row C owner lease_until now)
    same_where = λ i row. has_id C key row && row_claimable-claimable row i

    -- `_claim_sql` wins exactly if the job is claimable, and then changes it as `apply_claim` does.
    pub claim_sql-claimable :
        ((claim_sql C key owner lease_until now db).0 ≡ hit key open_job (jobs_dict C db.jobs))
        × (jobs_dict C (claim_sql C key owner lease_until now db).1.jobs
            ≡ put_if key open_job (claimed_job owner lease_until now) (jobs_dict C db.jobs))
    unfolding claim_sql claimed_row claimed_job
    claim_sql-claimable = (
      ap (λ p. nat_eqb (rowcount C p db) 1) same_where
          ∙ count-one_row C key open_job (claimed_row C owner lease_until now) db.jobs distinct,
      ap (λ p. jobs_dict C (update_where p (claimed_row C owner lease_until now) db.jobs))
            same_where
          ∙ jobs_dict-update_where C key open_job (claimed_row C owner lease_until now)
              (claimed_job owner lease_until now) sends (λ row. refl) db.jobs distinct,
    )
      where
        sends :
            (row : Row C)
            → to_job C (claimed_row C owner lease_until now row)
              ≡ claimed_job owner lease_until now (to_job C row)
        sends row = refl

module _ (C : Codec) (now : ℕ) where
  -- A claimed job is read back, and the event about it changes no job.
  after_claim-ok :
      (key : String) (native : Bool) (t : Db C) (job : Job)
      → lookup key (jobs_dict C t.jobs) ≡ some job
      → ((after_claim C key now native t).0 ≡ ok job)
        × ((after_claim C key now native t).1.jobs ≡ t.jobs)
  unfolding after_claim emit
  after_claim-ok key native t job e =
      rw (require_job-jobs_dict C key t job e, after_claim) (refl, refl)

  -- The job that a claim of a key returns, if it may be claimed.
  abbrev pub claimed_at : (Job → Bool) → (Job → Job) → Option Job → Option Job
  claimed_at c g none = none
  claimed_at c g (some job) = if c job then some (g job) else none

  module _ (key owner : String) (lease_until : ℕ) (db : Db C)
      (distinct : Distinct (ids_of C db.jobs)) where
    abbrev pub taken : Job → Job
    taken = claimed_job owner lease_until now

    abbrev pub Won : Result (Option Job) × Db C → Type 0
    Won r =
        (r.0 ≡ ok (claimed_at (open_job C now db) taken (lookup key (jobs_dict C db.jobs))))
        × (jobs_dict C r.1.jobs ≡ put_if key (open_job C now db) taken (jobs_dict C db.jobs))

    pub claim_by_id_run-Won : Won (claim_by_id_run C key owner lease_until now db)
    unfolding claim_by_id_run
    claim_by_id_run-Won =
        go (claim_sql C key owner lease_until now db).0 (claim_sql C key owner lease_until now db).1
          (lookup key (jobs_dict C db.jobs)) won.0 won.1
      where
        won :
            ((claim_sql C key owner lease_until now db).0
              ≡ hit key (open_job C now db) (jobs_dict C db.jobs))
            × (jobs_dict C (claim_sql C key owner lease_until now db).1.jobs
                ≡ put_if key (open_job C now db) taken (jobs_dict C db.jobs))
        won = claim_sql-claimable C now db key owner lease_until distinct

        c : Job → Bool
        c = open_job C now db

        answer : Bool → Db C → Result (Option Job) × Db C
        answer b t = if b then some_job C (after_claim C key now false t) else (ok none, t)

        m : Dict String Job
        m = jobs_dict C db.jobs

        read_back :
            (t : Db C) (job : Job)
            → jobs_dict C t.jobs ≡ insert key (taken job) m
            → ((answer true t).0 ≡ ok (some (taken job)))
              × (jobs_dict C (answer true t).1.jobs ≡ insert key (taken job) m)
        read_back t job b = wrap (after_claim C key now false t) (
            after_claim-ok key false t (taken job)
              (ap (lookup key) b ∙ lookup-insert_self key (taken job) m))
          where
            wrap :
                (r : Result Job × Db C)
                → (r.0 ≡ ok (taken job)) × (r.1.jobs ≡ t.jobs)
                → ((some_job C r).0 ≡ ok (some (taken job)))
                  × (jobs_dict C (some_job C r).1.jobs ≡ insert key (taken job) m)
            wrap (err e, u) (p, q) = cc
            wrap (ok j, u) (p, q) = (cc, ap (jobs_dict C) q ∙ b)

        tested :
            (b : Bool) (hits : Bool) (t : Db C) (job : Job)
            → hits ≡ b
            → jobs_dict C t.jobs ≡ (if b then insert key (taken job) m else m)
            → ((answer hits t).0 ≡ ok (if b then some (taken job) else none))
              × (jobs_dict C (answer hits t).1.jobs ≡ (if b then insert key (taken job) m else m))
        tested true hits t job a h = rw a (read_back t job h)
        tested false hits t job a h = rw a (refl, h)

        go :
            (hits : Bool) (t : Db C) (found : Option Job)
            → hits ≡ (elim found [ none ↦ false | some job ↦ c job ])
            → jobs_dict C t.jobs
              ≡ (elim found [ none ↦ m | some job ↦ if c job then insert key (taken job) m else m ])
            → ((answer hits t).0 ≡ ok (claimed_at c taken found))
              × (jobs_dict C (answer hits t).1.jobs ≡ (elim found [
                | none ↦ m
                | some job ↦ if c job then insert key (taken job) m else m
              ]))
        go hits t none a b = rw a (refl, b)
        go hits t (some job) a b = tested (c job) hits t job a b

    -- `claim_by_id` claims the job under the key exactly if the job is claimable, which is what
    -- `claimable` says of it; it returns the job as it changed it, and changes no other.
    pub claim_by_id-claimable :
        (busy : ℕ → Bool)
        → db.closed ≡ false
        → busy 0 ≡ false
        → let r = claim_by_id C busy key owner lease_until now db in
          (r.0
            ≡ ok (
                claimed_at
                  (open_job C now db)
                  (claimed_job owner lease_until now)
                  (lookup key (jobs_dict C db.jobs))))
          × (jobs_dict C r.1.jobs
              ≡ put_if key
                  (open_job C now db)
                  (claimed_job owner lease_until now)
                  (jobs_dict C db.jobs))
    unfolding claim_by_id
    claim_by_id-claimable busy running free =
        subst Won
          (sym (
            tx-runs C (claim_by_id_run C key owner lease_until now) db busy
              (claimed_at (open_job C now db) taken (lookup key (jobs_dict C db.jobs))) running free
              claim_by_id_run-Won.0))
          (refl, claim_by_id_run-Won.1)

-- The ids of a table are the keys of its dictionary.
pub ids_of-keys : (C : Codec) (rows : List (Row C)) → ids_of C rows ≡ keys (jobs_dict C rows)
unfolding keys
ids_of-keys C [] = refl
ids_of-keys C (row ∷ rows) = ap (λ ids. row.job_id ∷ ids) (ids_of-keys C rows)

put_if-Distinct :
    (key : String) (c : Job → Bool) (g : Job → Job) (m : Dict String Job)
    → Distinct (keys m)
    → Distinct (keys (put_if key c g m))
put_if-Distinct key c g m d = go (lookup key m)
  where
    go :
        (found : Option Job)
        → Distinct
            (keys (elim found [ none ↦ m | some job ↦ if c job then insert key (g job) m else m ]))
    go none = d
    go (some job) =
        split_if (λ (t : Dict String Job). Distinct (keys t)) (c job)
          (λ _. insert-Distinct key (g job) m d) (λ _. d)

module _ (C : Codec) (key owner : String) (lease_until now : ℕ) (db : Db C) (busy : ℕ → Bool)
    (job : Job) (distinct : Distinct (ids_of C db.jobs)) (running : db.closed ≡ false)
    (free : busy 0 ≡ false) where
  -- A job that was claimed is not claimed again by the next claim of it, whoever makes it, whenever.
  pub claim_by_id-claim_sql :
      (other : String) (until later : ℕ)
      → let r = claim_by_id C busy key owner lease_until now db in
        r.0 ≡ ok (some job) → (claim_sql C key other until later r.1).0 ≡ false
  unfolding claimed_job claimable
  claim_by_id-claim_sql other until later h =
      (claim_sql-claimable C later r.1 key other until still).0
      ∙ (ap (hit key (open_job C later r.1)) claims.1
          ∙ go (lookup key m) (ok_value (sym claims.0 ∙ h)))
    where
      r : Result (Option Job) × Db C
      r = claim_by_id C busy key owner lease_until now db

      m : Dict String Job
      m = jobs_dict C db.jobs

      c : Job → Bool
      c = open_job C now db

      g : Job → Job
      g = claimed_job owner lease_until now

      claims :
          (r.0 ≡ ok (claimed_at C now c g (lookup key m)))
          × (jobs_dict C r.1.jobs ≡ put_if key c g m)
      claims = claim_by_id-claimable C now key owner lease_until db distinct busy running free

      still : Distinct (ids_of C r.1.jobs)
      still =
          subst Distinct
            (sym (ids_of-keys C r.1.jobs ∙ ap (λ (t : Dict String Job). keys t) claims.1))
            (put_if-Distinct key c g m (subst Distinct (ids_of-keys C db.jobs) distinct))

      ok_value : {x y : Option Job} → ok x ≡ ok y → x ≡ y
      ok_value e = cc

      again : Job → Bool
      again = open_job C later r.1

      tested :
          (b : Bool) (j : Job)
          → (if b then some (g j) else none) ≡ some job
          → hit key again (if b then insert key (g j) m else m) ≡ false
      tested false j e = cc
      tested true j e =
          ap (λ (o : Option Job). elim o [ none ↦ false | some x ↦ again x ])
            (lookup-insert_self key (g j) m)

      go :
          (found : Option Job)
          → claimed_at C now c g found ≡ some job
          → hit key again (elim found [ none ↦ m | some x ↦ if c x then insert key (g x) m else m ])
            ≡ false
      go none e = cc
      go (some x) e = tested (c x) x e
