-- ===== src/Memory/Invariant.antt =====
-- The invariant of the in-memory queue, read at one key: the job there, and its lane in the ready
-- index. It speaks of a time `now`, that of the step at hand.
use keziah.Base.{
  ℕ, ◌≡◌, refl, sym, ap, subst, ◌⊎◌, inl, inr, String, Bool, true, false, ◌||◌, not, Option, none,
  some, List, [], ◌∷◌, arith, if◌then◌else◌, Bool-cases, Dict, keys, Distinct, insert-Distinct,
  erase-Distinct, lookup, insert, erase, lookup-insert, lookup-erase, ◌==◌, string_eq,
}
use keziah.Types.{State, Job, Batch, is_held, is_terminal, state_is}
use keziah.Ready.{Lane}
use keziah.Memory.{Memory, is_some, is_after, is_due, batch_is_active, for_each}

abbrev pub lane_of_job : Job → Lane
lane_of_job job = (job.resolved_model, (job.scheduling_class, job.client_id))

-- The states in which a job of a batch does not need the batch to be active.
abbrev pub is_gated : State → Bool
is_gated State.staged = true
is_gated State.cancelled = true
is_gated _ = false

-- The states in which a `not_before` must have passed.
abbrev pub is_started : State → Bool
is_started State.staged = true
is_started State.queued = true
is_started State.leased = true
is_started State.running = true
is_started _ = false

-- A queued job that is not to be claimed any more: the next maintenance ends it.
abbrev pub is_doomed : ℕ → Job → Bool
is_doomed now job = job.cancel_requested || is_due job.deadline_at now

pub record JobOk (now : ℕ) (batches : Dict String Batch) (key : String) (job : Job) : Type 0 where
  pub named : job.job_id ≡ key
  pub owned : is_some job.lease_owner ≡ is_held job.state
  pub timed : is_some job.lease_expires_at ≡ is_held job.state
  pub ended : is_some job.finished_at ≡ is_terminal job.state
  pub gated : (is_gated job.state || batch_is_active job.batch_id batches) ≡ true
  pub ripe : (not (is_started job.state) || not (is_after job.not_before now)) ≡ true

-- What the ready index holds for a job.
pub record Listed (now : ℕ) (job : Job) (lane : Option Lane) : Type 0 where
  pub aligned : (lane ≡ none) ⊎ (lane ≡ some (lane_of_job job))
  pub only : (state_is job.state State.queued || not (is_some lane)) ≡ true
  pub listed : (not (state_is job.state State.queued) || (is_some lane || is_doomed now job)) ≡ true

abbrev pub CellOk : ℕ → Dict String Batch → String → Option Job → Option Lane → Type 0
CellOk now batches key none none = Unit
CellOk now batches key none (some lane) = ⊥
CellOk now batches key (some job) lane = JobOk now batches key job × Listed now job lane

pub record CellsOk (now : ℕ) (batches : Dict String Batch) (jobs : Dict String Job)
    (live : Dict String Lane) : Type 0 where
  pub distinct : Distinct (keys jobs)
  pub cell : (key : String) → CellOk now batches key (lookup key jobs) (lookup key live)

abbrev pub Inv : ℕ → Memory → Type 0
Inv now s = CellsOk now s.batches s.jobs s.index.live

-- A property that each turn of a loop keeps holds after the loop.
pub for_each_inv {ℓ κ} :
    {R : Type ℓ} (P : Memory → Type κ) (body : String → Job → Memory × R → Memory × R)
    → ((key : String) (job : Job) (r : Memory × R)
        → lookup key r.0.jobs ≡ some job
        → P r.0
        → P (body key job r).0)
    → (keys : List String) (r : Memory × R) → P r.0
    → P (for_each keys body r).0
unfolding for_each
for_each_inv P body keeps [] r p = p
for_each_inv {R = R} P body keeps (key ∷ rest) r p =
    for_each_inv P body keeps rest (next (lookup key r.0.jobs)) (turn (lookup key r.0.jobs) refl)
  where
    next : Option Job → Memory × R
    next found = elim found [ none ↦ r | some job ↦ body key job r ]

    turn : (found : Option Job) → lookup key r.0.jobs ≡ found → P (next found).0
    turn none e = p
    turn (some job) e = keeps key job r e p

abbrev Updates : {V : Type 0} → String → Option V → Dict String V → Dict String V → Type 0
Updates key v m m' = (k : String) → lookup k m' ≡ (if key == k then v else lookup k m)

same_key : {V : Type 0} (f : String → V) (key k : String) → f k ≡ (if key == k then f key else f k)
same_key f key k = elim (Bool-cases (key == k)) [
  | inl e ↦ rw e (ap f (sym ((string_eq.beq_iff key k).0 e)))
  | inr e ↦ rw e
]

regate-CellOk :
    (now : ℕ) (batches batches' : Dict String Batch) (key : String) (job : Option Job)
    (lane : Option Lane)
    → ((b : Option String) → batch_is_active b batches ≡ true → batch_is_active b batches' ≡ true)
    → CellOk now batches key job lane
    → CellOk now batches' key job lane
regate-CellOk now batches batches' key none none keeps c = tt
regate-CellOk now batches batches' key none (some lane) keeps c = c
regate-CellOk now batches batches' key (some job) lane keeps (j, l) = (
  record {
    named = j.named;
    owned = j.owned;
    timed = j.timed;
    ended = j.ended;
    gated = ground (arith, j.gated, keeps job.batch_id);
    ripe = j.ripe;
  },
  l,
)

module _ {now : ℕ} {batches : Dict String Batch} {jobs : Dict String Job} {live : Dict String Lane}
    (inv : CellsOk now batches jobs live) (key : String) where
  -- The cell of a job that is there.
  pub cell_at :
      (job : Job)
      → lookup key jobs ≡ some job
      → JobOk now batches key job × Listed now job (lookup key live)
  cell_at job e = subst (λ o. CellOk now batches key o (lookup key live)) e (inv.cell key)

  -- A new cell under one key leaves the others as they are.
  update-CellsOk :
      (job : Option Job) (lane : Option Lane) (jobs' : Dict String Job) (live' : Dict String Lane)
      → Distinct (keys jobs')
      → Updates key job jobs jobs'
      → Updates key lane live live'
      → CellOk now batches key job lane
      → CellsOk now batches jobs' live'
  update-CellsOk job lane jobs' live' d js ls c = record {
    distinct = d;
    cell = λ k.
        rw (js k, ls k)
          (elim (Bool-cases (key == k)) [
            | inl e ↦
                rw e (subst (λ x. CellOk now batches x job lane) ((string_eq.beq_iff key k).0 e) c)
            | inr e ↦ rw e (inv.cell k)
          ]);
  }

  pub put-CellsOk :
      (job : Job)
      → CellOk now batches key (some job) (lookup key live)
      → CellsOk now batches (insert key job jobs) live
  put-CellsOk job =
      update-CellsOk (some job) (lookup key live) _ live (insert-Distinct key job jobs inv.distinct)
        (λ k. lookup-insert key k job jobs) (λ k. same_key (λ x. lookup x live) key k)

  -- The index is keyed by `job.job_id`, which is the job's key.
  pub drop-CellsOk :
      (job : Job) (id : String)
      → id ≡ key
      → CellOk now batches key (some job) none
      → CellsOk now batches (insert key job jobs) (erase id live)
  drop-CellsOk job id e = rw e (
      update-CellsOk (some job) none _ _ (insert-Distinct key job jobs inv.distinct)
        (λ k. lookup-insert key k job jobs) (λ k. lookup-erase key k live))

  pub list-CellsOk :
      (job : Job) (id : String) (lane : Lane)
      → id ≡ key
      → CellOk now batches key (some job) (some lane)
      → CellsOk now batches (insert key job jobs) (insert id lane (erase id live))
  list-CellsOk job id lane e = rw e (
      update-CellsOk (some job) (some lane) _ _ (insert-Distinct key job jobs inv.distinct)
        (λ k. lookup-insert key k job jobs)
        (λ k. ground (arith, lookup-insert key k lane (erase key live), lookup-erase key k live)))

  pub forget-CellsOk :
      (id : String) → id ≡ key → CellsOk now batches (erase key jobs) (erase id live)
  forget-CellsOk id e = rw e (
      update-CellsOk none none _ _ (erase-Distinct key jobs inv.distinct)
        (λ k. lookup-erase key k jobs) (λ k. lookup-erase key k live) tt)

  -- A hint that is dropped for a job that is not there, or that nobody may claim any more.
  pub unlist-CellsOk :
      (found : Option Job)
      → lookup key jobs ≡ found
      → CellOk now batches key found none
      → CellsOk now batches jobs (erase key live)
  unlist-CellsOk found e =
      update-CellsOk found none jobs _ inv.distinct
        (λ k. rw (← e) (same_key (λ x. lookup x jobs) key k)) (λ k. lookup-erase key k live)

  -- The same where the job was written twice.
  insert_twice :
      (old job : Job) → Updates key (some job) jobs (insert key job (insert key old jobs))
  insert_twice old job k =
      ground (arith, lookup-insert key k job (insert key old jobs), lookup-insert key k old jobs)

  insert_twice-Distinct : (old job : Job) → Distinct (keys (insert key job (insert key old jobs)))
  insert_twice-Distinct old job =
      insert-Distinct key job (insert key old jobs) (insert-Distinct key old jobs inv.distinct)

  pub drop_twice-CellsOk :
      (old job : Job) (id : String)
      → id ≡ key
      → CellOk now batches key (some job) none
      → CellsOk now batches (insert key job (insert key old jobs)) (erase id live)
  drop_twice-CellsOk old job id e = rw e (
      update-CellsOk (some job) none _ _ (insert_twice-Distinct old job) (insert_twice old job)
        (λ k. lookup-erase key k live))

  pub list_twice-CellsOk :
      (old job : Job) (id : String) (lane : Lane)
      → id ≡ key
      → CellOk now batches key (some job) (some lane)
      → CellsOk now batches (insert key job (insert key old jobs)) (insert id lane (erase id live))
  list_twice-CellsOk old job id lane e = rw e (
      update-CellsOk (some job) (some lane) _ _ (insert_twice-Distinct old job)
        (insert_twice old job)
        (λ k. ground (arith, lookup-insert key k lane (erase key live), lookup-erase key k live)))

module _ {now : ℕ} {batches : Dict String Batch} {jobs : Dict String Job} {live : Dict String Lane}
    (inv : CellsOk now batches jobs live) where
  -- A change of the batches that leaves every active batch active.
  pub regate-CellsOk :
      (batches' : Dict String Batch)
      → ((b : Option String) → batch_is_active b batches ≡ true → batch_is_active b batches' ≡ true)
      → CellsOk now batches' jobs live
  regate-CellsOk batches' keeps = record {
    distinct = inv.distinct;
    cell = λ k.
        regate-CellOk now batches batches' k (lookup k jobs) (lookup k live) keeps (inv.cell k);
  }
