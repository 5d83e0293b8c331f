-- ===== src/Memory/Keeps/Lease.antt =====
-- Claims and leases keep the invariant. A claim drops a hint only for a job that may not run again.
use keziah.Base.{
  ℕ, zero, suc, ◌≡◌, refl, subst, sym, inl, inr, String, Bool, true, false, ◌&&◌, Option, none,
  some, List, [], arith, split_if, Option-cases, lookup, ◌==◌, string_eq, option_eq, nat_eqb,
  lookup-insert,
}
use keziah.Types.{State, Job, is_held, state_is}
use keziah.Scheduler.Numbers.{Float}
use keziah.Scheduler.{Weights, PickerState}
use keziah.Ready.{remove, propose}
use keziah.Ready.Live.{propose-live}
use keziah.Memory.{Memory, claimable, batch_is_active, for_each, index_remove, Result}
use keziah.Memory.Lease.{
  claimed_job, claim_job, claimable_at, claim_loop, claim_next, claim_batch_job, claim_compatible,
  compatible, older, holds_lease, extended_job, extend_lease, running_job, mark_running,
}
use keziah.Memory.Loops.{for_each_marked}
use keziah.Memory.Matching.{chosen_keys, chosen_keys-keeps}
use keziah.Memory.Invariant.{
  Inv, CellOk, CellsOk, cell_at, put-CellsOk, drop-CellsOk, unlist-CellsOk,
}
use keziah.Memory.Keeps.Shapes.{one_job}

module _ {now : ℕ} (s : Memory) (inv : Inv now s) (key : String) where
  claimed-Cell :
      (job : Job) (owner : String) (until t : ℕ)
      → lookup key s.jobs ≡ some job
      → state_is job.state State.queued ≡ true
      → CellOk now s.batches key (some (claimed_job owner until t job)) none
  unfolding claimed_job
  claimed-Cell job owner until t e q = let (j, l) = cell_at inv key job e in ground arith

  claim_job-Inv :
      (job : Job) (owner : String) (until t : ℕ)
      → lookup key s.jobs ≡ some job
      → state_is job.state State.queued ≡ true
      → Inv now (claim_job owner until t key job s)
  unfolding claim_job remove
  claim_job-Inv job owner until t e q =
      let (j, l) = cell_at inv key job e in
      drop-CellsOk inv key _ job.job_id j.named (claimed-Cell job owner until t e q)

  -- A job that is there and not claimable now will not be claimable later.
  refused-Cell :
      (found : Option Job)
      → lookup key s.jobs ≡ found
      → claimable_at key now s ≡ none
      → CellOk now s.batches key found none
  unfolding claimable_at claimable
  refused-Cell none e h = tt
  refused-Cell (some job) e h = let (j, l) = cell_at inv key job e in ground arith

  pub refused-Inv : claimable_at key now s ≡ none → Inv now (index_remove key s)
  unfolding remove
  refused-Inv h =
      unlist-CellsOk inv key (lookup key s.jobs) refl (refused-Cell (lookup key s.jobs) refl h)

  -- What a claim has tested.
  pub claimable_at_lem :
      (job : Job)
      → claimable_at key now s ≡ some job
      → (lookup key s.jobs ≡ some job)
        × (claimable job now (batch_is_active job.batch_id s.batches) ≡ true)
  unfolding claimable_at
  claimable_at_lem job h = ground arith

  extended-Cell :
      (job : Job) (until t : ℕ)
      → lookup key s.jobs ≡ some job
      → is_held job.state ≡ true
      → CellOk now s.batches key (some (extended_job until t job)) (lookup key s.index.live)
  unfolding extended_job
  extended-Cell job until t e h = let (j, l) = cell_at inv key job e in ground arith

  running-Cell :
      (job : Job) (until t : ℕ)
      → lookup key s.jobs ≡ some job
      → state_is job.state State.leased ≡ true
      → CellOk now s.batches key (some (running_job until t job)) (lookup key s.index.live)
  unfolding running_job
  running-Cell job until t e h = let (j, l) = cell_at inv key job e in ground arith

pub claimable-queued :
    (job : Job) (now : ℕ) (active : Bool)
    → claimable job now active ≡ true
    → state_is job.state State.queued ≡ true
unfolding claimable
claimable-queued job now active h = ground arith

module _ (F : Float) (settings : Weights F) (model owner : String) (until now : ℕ) where
  pub claim_loop-Inv :
      (turns : ℕ) (picker : PickerState F) (s : Memory)
      → Inv now s
      → Inv now (claim_loop F settings model owner until now turns picker s).1
  unfolding claim_loop
  claim_loop-Inv zero picker s inv = inv
  claim_loop-Inv (suc turns) picker s inv =
      let proposal = propose F settings model picker now s.index in
      let t = record s { index = proposal.0 } in
      let same = propose-live F settings model picker now s.index in
      let moved : Inv now t = subst (CellsOk now s.batches s.jobs) (sym same) inv in
      elim (Option-cases proposal.1.0) [
        | inl e ↦ rw (e, claim_loop) moved
        | inr (choice, e) ↦
            rw (e, claim_loop)
              (elim (Option-cases (claimable_at choice.job_id now t)) [
                | inl f ↦ rw f (
                    claim_loop-Inv turns picker (index_remove choice.job_id t)
                      (refused-Inv t moved choice.job_id f))
                | inr (job, f) ↦
                    let (there, open_) = claimable_at_lem t moved choice.job_id job f in
                    rw f (
                      claim_job-Inv t moved choice.job_id job owner until now there
                        (claimable-queued job now (batch_is_active job.batch_id s.batches) open_))
              ])
      ]

  pub claim_next-Inv :
      (picker : PickerState F) (s : Memory)
      → Inv now s
      → Inv now (claim_next F settings model owner until now picker s).1
  unfolding claim_next
  claim_next-Inv picker s inv =
      split_if (λ (r : Result (Option Job × PickerState F) × Memory). Inv now r.1) s.closed
        (λ _. inv) (λ _. claim_loop-Inv 64 picker s inv)

module _ {now : ℕ} (s : Memory) (inv : Inv now s) where
  claim_batch_job-Inv :
      (owner : String) (until t : ℕ) (key : String) (job : Job) (r : Memory × List Job)
      → lookup key r.0.jobs ≡ some job
      → state_is job.state State.queued ≡ true
      → Inv now r.0
      → Inv now (claim_batch_job owner until t key job r).0
  unfolding claim_batch_job remove
  claim_batch_job-Inv owner until t key job r e q v =
      let (j, l) = cell_at v key job e in
      drop-CellsOk v key _ job.job_id j.named (claimed-Cell r.0 v key job owner until t e q)

  pub extend_lease-Inv :
      (key owner : String) (until t : ℕ) → Inv now (extend_lease key owner until t s).1
  unfolding extend_lease
  extend_lease-Inv key owner until t =
      one_job (Inv now) (lookup key s.jobs) (holds_lease owner) _ true false s inv
        λ job e h. put-CellsOk inv key _ (extended-Cell s inv key job until t e (ground arith))

  pub mark_running-Inv :
      (key owner : String) (until t : ℕ) → Inv now (mark_running key owner until t s).1
  unfolding mark_running
  mark_running-Inv key owner until t =
      one_job (Inv now) (lookup key s.jobs)
        (λ job. state_is job.state State.leased && job.lease_owner == some owner) _ true false s inv
        λ job e h. put-CellsOk inv key _ (running-Cell s inv key job until t e (ground arith))

  compatible-queued :
      (model hash : String) (exclude : List String) (t : ℕ) (job : Job)
      → compatible model hash exclude t s job ≡ true
      → state_is job.state State.queued ≡ true
  compatible-queued model hash exclude t job h =
      claimable-queued job t (batch_is_active job.batch_id s.batches) (ground arith)

  claim_batch_job-frame :
      (owner : String) (until t : ℕ) (key : String) (job : Job) (r : Memory × List Job) (k : String)
      → (key == k) ≡ false
      → lookup k (claim_batch_job owner until t key job r).0.jobs ≡ lookup k r.0.jobs
  unfolding claim_batch_job
  claim_batch_job-frame owner until t key job r k h =
      ground (arith, lookup-insert key k (claimed_job owner until t job) r.0.jobs)

  claim_all-Inv :
      (model hash : String) (exclude : List String) (limit t until : ℕ) (owner : String)
      → let chosen =
          chosen_keys (λ a b. older a.1 b.1) (compatible model hash exclude t s) limit s.jobs in
        Inv now (for_each chosen (claim_batch_job owner until t) (s, [])).0
  claim_all-Inv model hash exclude limit t until owner =
      let p = compatible model hash exclude t s in
      let (d, a) = chosen_keys-keeps (λ x y. older x.1 y.1) p limit s.jobs inv.distinct in
      for_each_marked (Inv now) p (claim_batch_job owner until t)
        (λ key job r e q v.
          claim_batch_job-Inv owner until t key job r e
            (compatible-queued model hash exclude t job q) v)
        (claim_batch_job-frame owner until t) _ (s, []) d a inv

  pub claim_compatible-Inv :
      (model hash : String) (exclude : List String) (limit t : ℕ) (owner : String) (until : ℕ)
      → Inv now (claim_compatible model hash exclude limit t owner until s).1
  unfolding claim_compatible
  claim_compatible-Inv model hash exclude limit t owner until =
      split_if P (nat_eqb limit 0) (λ _. inv)
        λ _.
          split_if P s.closed (λ _. inv) λ _. claim_all-Inv model hash exclude limit t until owner
    where
      P : Result (List Job) × Memory → Type 0
      P r = Inv now r.1
