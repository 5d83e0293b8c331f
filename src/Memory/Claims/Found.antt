-- ===== src/Memory/Claims/Found.antt =====
-- `claim_next` finds a claimable job if there is one: the loop of 64 turns drops at most one stale
-- hint a turn.
use keziah.Base.{
  ℕ, zero, suc, ◌≤◌, ◌≡◌, ◌≢◌, refl, sym, subst, ◌∙◌, inl, String, true, false, Option, none, some,
  List, [], ◌∷◌, arith, length, split_if, split_option, In, All-In, contains, Dict, lookup, erase,
  string_eq,
}
use mathlib.Core.Bool.{true≢false}
use keziah.Types.{Job, Candidate, scheduling_classes}
use keziah.Scheduler.Numbers.{Float}
use keziah.Scheduler.{Weights, PickerState, is_empty}
use keziah.Scheduler.Winner.{select-In, select-none}
use keziah.Ready.{Lane, lane_of, heads, propose, remove}
use keziah.Ready.Live.{propose-live}
use keziah.Ready.Heaps.{IndexOk, remove-IndexOk}
use keziah.Ready.Heads.{heads-HeadsOk, heads-is_empty}
use keziah.Memory.{Memory, Result, ok, claimable, batch_is_active, index_remove}
use keziah.Memory.Lease.{claimable_at, claim_loop, claim_next}
use keziah.Memory.Invariant.{Inv, CellOk, CellsOk, lane_of_job}
use keziah.Memory.Keeps.HintedClaims.{propose-Indexed}
use keziah.Memory.Keeps.Lease.{refused-Inv}

module _ {V : Type 0} (k : String) where
  erase-shorter : (m : Dict String V) → length (erase k m) ≤ length m
  unfolding erase
  erase-shorter [] = omega arith
  erase-shorter ((j, v) ∷ m) = ground (arith, erase-shorter m)

  -- Removing a key that is there makes a table shorter.
  erase-length :
      (m : Dict String V) (v : V) → lookup k m ≡ some v → suc (length (erase k m)) ≤ length m
  unfolding erase lookup
  erase-length [] v h = cc
  erase-length ((j, w) ∷ m) v h = ground (arith, erase-length m v, erase-shorter m)

-- A queued job that may be claimed has its hint, in its own lane.
hinted :
    (now : ℕ) (s : Memory) (key : String) (job : Job)
    → Inv now s
    → lookup key s.jobs ≡ some job
    → claimable job now (batch_is_active job.batch_id s.batches) ≡ true
    → lookup key s.index.live ≡ some (lane_of_job job)
unfolding claimable
hinted now s key job inv e c = ground (arith, cell (lookup key s.index.live) held)
  where
    held : CellOk now s.batches key (some job) (lookup key s.index.live)
    held = subst (λ o. CellOk now s.batches key o (lookup key s.index.live)) e (inv.cell key)

    cell :
        (lane : Option Lane)
        → CellOk now s.batches key (some job) lane
        → lane ≡ some (lane_of_job job)
    cell none (j, l) = ground (arith, l.listed, c)
    cell (some lane) (j, l) = ground (arith, l.aligned)

-- Every job is of one of the four classes, which the service sees to.
abbrev pub Classed : Dict String Job → Type 0
Classed jobs =
    (key : String) (job : Job)
    → lookup key jobs ≡ some job
    → contains scheduling_classes job.scheduling_class ≡ true

-- A candidate with a live hint is of a known class.
known :
    (now : ℕ) (s : Memory) (c : Candidate)
    → Inv now s
    → Classed s.jobs
    → lookup c.job_id s.index.live ≡ some (lane_of c)
    → contains scheduling_classes c.scheduling_class ≡ true
known now s c inv classed shown = go (lookup c.job_id s.jobs) refl (
    subst (λ l. CellOk now s.batches c.job_id (lookup c.job_id s.jobs) l) shown (inv.cell c.job_id))
  where
    go :
        (found : Option Job)
        → lookup c.job_id s.jobs ≡ found
        → CellOk now s.batches c.job_id found (some (lane_of c))
        → contains scheduling_classes c.scheduling_class ≡ true
    go none e cell = absurd cell
    go (some job) e (j, l) =
        let same : job.scheduling_class ≡ c.scheduling_class = ground (arith, l.aligned) in
        subst (λ n. contains scheduling_classes n ≡ true) same (classed c.job_id job e)

some_first : {A : Type 0} (xs : List A) → is_empty xs ≡ false → (x : A) × In x xs
some_first [] h = absurd (true≢false h)
some_first (x ∷ xs) h = (x, inl refl)

module _ (F : Float) (settings : Weights F) (model owner : String) (until now : ℕ) (key : String)
    (job : Job) where
  -- The job under `key` may be claimed, and the index is in order.
  record Ready (s : Memory) : Type 0 where
    pub inv : Inv now s
    pub index : IndexOk s.index
    pub classed : Classed s.jobs
    pub there : lookup key s.jobs ≡ some job
    pub free : claimable job now (batch_is_active job.batch_id s.batches) ≡ true
    pub routed : job.resolved_model ≡ model

  hint : (s : Memory) → Ready s → lookup key s.index.live ≡ some (lane_of_job job)
  hint s r = hinted now s key job r.inv r.there r.free

  proposed :
      (picker : PickerState F) (s : Memory)
      → Ready s
      → (propose F settings model picker now s.index).1.0 ≢ none
  unfolding propose
  proposed picker s r e =
      let (c, m) =
        some_first (heads model s.index).1
          (heads-is_empty model key (lane_of_job job) s.index r.index (hint s r) r.routed) in
      let shown =
        All-In _ c (heads model s.index).1 (heads-HeadsOk model s.index r.index).shown m in
      true≢false (
        sym (known now s c r.inv r.classed shown)
        ∙ select-none F settings now model picker (heads model s.index).1 e c m)

  live_choice :
      (picker : PickerState F) (s : Memory) (c : Candidate)
      → Ready s
      → (propose F settings model picker now s.index).1.0 ≡ some c
      → lookup c.job_id s.index.live ≡ some (lane_of c)
  unfolding propose
  live_choice picker s c r e =
      All-In _ c (heads model s.index).1 (heads-HeadsOk model s.index r.index).shown
        (select-In F settings now model picker (heads model s.index).1 c e)

  -- A stale hint that is dropped is not the job's own.
  dropped :
      (picker : PickerState F) (s : Memory) (c : Candidate)
      → Ready s
      → claimable_at c.job_id now
          (record s { index = (propose F settings model picker now s.index).0 })
        ≡ none
      → Ready (
          index_remove c.job_id
            (record s { index = (propose F settings model picker now s.index).0 }))
  unfolding claimable_at
  dropped picker s c r e =
      let index = (propose F settings model picker now s.index).0 in
      let t = record s { index = index } in
      let moved : Inv now t =
        subst (CellsOk now s.batches s.jobs)
          (sym (propose-live F settings model picker now s.index)) r.inv in
      record {
        inv = refused-Inv t moved c.job_id e;
        index =
            remove-IndexOk c.job_id index
              (propose-Indexed F settings model owner until now picker s.index r.index);
        classed = r.classed;
        there = r.there;
        free = r.free;
        routed = r.routed;
      }

  claim_loop-finds :
      (turns : ℕ) (picker : PickerState F) (s : Memory)
      → Ready s
      → length s.index.live ≤ turns
      → (claim_loop F settings model owner until now turns picker s).0.0 ≢ none
  unfolding claim_loop remove
  claim_loop-finds zero picker s r n =
      absurd (omega (arith, n, erase-length key s.index.live (lane_of_job job) (hint s r)))
  claim_loop-finds (suc turns) picker s r n =
      let proposal = propose F settings model picker now s.index in
      let t = record s { index = proposal.0 } in
      split_option P proposal.1.0 (λ e. absurd (proposed picker s r e))
        λ c e.
          split_option P (claimable_at c.job_id now t)
            (λ f.
              claim_loop-finds turns picker (index_remove c.job_id t) (dropped picker s c r f)
                (shrunk picker s c r e n))
            (λ found _. λ no. cc)
    where
      P : (Option Job × PickerState F) × Memory → Type 0
      P x = x.0.0 ≢ none

      shrunk :
          (picker : PickerState F) (s : Memory) (c : Candidate)
          → Ready s
          → (propose F settings model picker now s.index).1.0 ≡ some c
          → length s.index.live ≤ suc turns
          → length (remove c.job_id (propose F settings model picker now s.index).0).live ≤ turns
      shrunk picker s c r e n =
          subst (λ live. length (erase c.job_id live) ≤ turns)
            (sym (propose-live F settings model picker now s.index))
            (omega (
              arith,
              n,
              erase-length c.job_id s.index.live (lane_of c) (live_choice picker s c r e),
            ))

  -- In a queue that is open, whose invariants hold, whose jobs are of the four classes, and that has
  -- at most 64 live hints: if some job of the model may be claimed, `claim_next` claims a job.
  pub claim_next-finds :
      (picker : PickerState F) (s : Memory)
      → s.closed ≡ false
      → Inv now s
      → IndexOk s.index
      → Classed s.jobs
      → length s.index.live ≤ 64
      → lookup key s.jobs ≡ some job
      → claimable job now (batch_is_active job.batch_id s.batches) ≡ true
      → job.resolved_model ≡ model
      → (claimed : Job) × (next : PickerState F) × ((claim_next F settings model owner until now
            picker s).0
          ≡ ok (some claimed, next))
  unfolding claim_next
  claim_next-finds picker s running inv index classed few there free routed =
      split_if P s.closed (λ shut. absurd (true≢false (sym shut ∙ running)))
        λ _. got (claim_loop F settings model owner until now 64 picker s).0 (
          claim_loop-finds 64 picker s
            (record {
              inv = inv;
              index = index;
              classed = classed;
              there = there;
              free = free;
              routed = routed;
            })
            few)
    where
      P : Result (Option Job × PickerState F) × Memory → Type 0
      P r = (claimed : Job) × (next : PickerState F) × (r.0 ≡ ok (some claimed, next))

      got :
          (r : Option Job × PickerState F)
          → r.0 ≢ none
          → (claimed : Job) × (next : PickerState F) × (ok r ≡ ok (some claimed, next))
      got (none, next) h = absurd (h refl)
      got (some claimed, next) h = (claimed, next, refl)
