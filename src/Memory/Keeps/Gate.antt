-- ===== src/Memory/Keeps/Gate.antt =====
-- `activate_batch` of src/keziah/queue/memory.py keeps the invariant.
use keziah.Base.{
  ℕ, ◌≡◌, refl, ap, String, true, false, not, Option, none, some, arith, split_if, split_option, Eq,
  lookup, string_eq, eq_self, ◌==◌, option_eq, lookup-insert,
}
use keziah.Types.{State, Job, Batch, is_staging, is_active, state_is}
use keziah.Ready.{remove, add}
use keziah.Memory.{Memory, Result, batch_is_active, keys_where, in_batch}
use keziah.Memory.Submit.{remember_key}
use keziah.Memory.Batches.{
  activated_job, activate_job, activate_all, activated_batch, open_gate, activate_plain,
  replay_batch, key_holder, activate_batch, put_batch,
}
use keziah.Memory.Loops.{for_each_marked, keys_where-Distinct, keys_where-Marks}
use keziah.Memory.Invariant.{Inv, CellOk, lane_of_job, cell_at, list-CellsOk, regate-CellsOk}
use keziah.Memory.Keeps.Batches.{active_insert, abort_unlocked-Inv}

module _ (now t : ℕ) (batch : String) where
  abbrev Opening : Memory → Type 0
  Opening m = Inv now m × (batch_is_active (some batch) m.batches ≡ true)

  activated-Cell :
      (m : Memory) (key : String) (job : Job)
      → Opening m
      → lookup key m.jobs ≡ some job
      → in_batch batch job ≡ true
      → state_is job.state State.staged ≡ true
      → CellOk now m.batches key (some (activated_job t job)) (some (lane_of_job job))
  unfolding activated_job
  activated-Cell m key job (inv, on) there b h =
      let (j, l) = cell_at inv key job there in
      let e : Eq (Option String) = option_eq in
      let same : job.batch_id ≡ some batch = (e.beq_iff job.batch_id (some batch)).0 b in
      ground (arith, ap (λ x. batch_is_active x m.batches) same)

  activate_job-Opening :
      (m : Memory) (key : String) (job : Job)
      → Opening m
      → lookup key m.jobs ≡ some job
      → in_batch batch job ≡ true
      → Opening (activate_job t key job m)
  unfolding activate_job add remove
  activate_job-Opening m key job o e b =
      split_if Opening (state_is job.state State.staged)
        (λ h.
          let (j, l) = cell_at o.0 key job e in
          (
            list-CellsOk o.0 key _ job.job_id (lane_of_job job) j.named
                (activated-Cell m key job o e b h),
            o.1,
          ))
        (λ _. o)

  activate_job-frame :
      (key : String) (job : Job) (m : Memory) (k : String)
      → (key == k) ≡ false
      → lookup k (activate_job t key job m).jobs ≡ lookup k m.jobs
  unfolding activate_job
  activate_job-frame key job m k h =
      ground (arith, lookup-insert key k (activated_job t job) m.jobs)

  activate_all-Opening : (m : Memory) → Opening m → Opening (activate_all batch t m)
  activate_all-Opening m o =
      for_each_marked {R = Unit {0}} Opening (in_batch batch)
        (λ id job r. (activate_job t id job r.0, tt))
        (λ id job r e q v. activate_job-Opening r.0 id job v e q)
        (λ id job r k h. activate_job-frame id job r.0 k h) (keys_where (in_batch batch) m.jobs)
        (m, tt) (keys_where-Distinct (in_batch batch) m.jobs o.0.distinct)
        (keys_where-Marks (in_batch batch) m.jobs o.0.distinct) o

  activated_batch-is_active :
      (key hash : Option String) (b : Batch)
      → is_active (activated_batch t key hash b).status ≡ true
  activated_batch-is_active none hash b = refl
  activated_batch-is_active (some key) hash b = refl

  open_gate-Inv :
      (s : Memory) (key hash : Option String) (b : Batch)
      → Inv now s
      → Inv now (open_gate batch t key hash b s)
  unfolding open_gate batch_is_active
  open_gate-Inv s key hash b inv =
      let opened =
        put_batch batch (activated_batch t key hash b)
          (record s { batch_idemp = remember_key key b.client_id batch s.batch_idemp }) in
      let on = activated_batch-is_active key hash b in
      (activate_all-Opening opened (
        regate-CellsOk inv _ (active_insert batch (activated_batch t key hash b) s.batches on),
        ground (
          arith,
          on,
          eq_self batch,
          lookup-insert batch batch (activated_batch t key hash b) s.batches,
        ),
      )).0

  activate_plain-Inv :
      (s : Memory) (key hash : Option String) (b : Batch)
      → Inv now s
      → Inv now (activate_plain batch t key hash b s).1
  activate_plain-Inv s key hash b inv =
      split_if P (is_active b.status) (λ _. inv)
        λ _. split_if P (not (is_staging b.status)) (λ _. inv) λ _. open_gate-Inv s key hash b inv
    where
      P : Result Batch × Memory → Type 0
      P r = Inv now r.1

  replay_batch-Inv :
      (s : Memory) (found : String) (hash : Option String)
      → Inv now s
      → Inv now (replay_batch batch found hash s).1
  replay_batch-Inv s found hash inv =
      split_option P (lookup found s.batches) (λ _. inv)
        λ other e.
          split_if P (not (other.idempotency_hash == hash)) (λ _. inv)
            λ _. abort_unlocked-Inv s inv batch
    where
      P : Result Batch × Memory → Type 0
      P r = Inv now r.1

  pub activate_batch-Inv :
      (s : Memory) (key hash : Option String)
      → Inv now s
      → Inv now (activate_batch batch key hash t s).1
  unfolding activate_batch
  activate_batch-Inv s key hash inv =
      split_if P s.closed (λ _. inv)
        λ _.
          split_option P (lookup batch s.batches) (λ _. inv)
            λ b e.
              split_option P (key_holder batch key b s) (λ _. activate_plain-Inv s key hash b inv)
                λ found h. replay_batch-Inv s found hash inv
    where
      P : Result Batch × Memory → Type 0
      P r = Inv now r.1
