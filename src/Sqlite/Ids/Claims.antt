-- ===== src/Sqlite/Ids/Claims.antt =====
-- The claims of src/keziah/queue/sqlite.py that choose a job keep the ids distinct.
use keziah.Base.{
  ℕ, zero, suc, String, true, false, not, List, [], ◌∷◌, ◌++◌, split_if, split_option, contains,
  length, leb, keep, string_eq,
}
use keziah.Types.{Job, Candidate}
use keziah.Memory.{Result, ok, err}
use keziah.Scheduler.Numbers.{Float}
use keziah.Scheduler.{Weights, PickerState, select}
use keziah.Sqlite.Rows.{Codec}
use keziah.Sqlite.{Db}
use keziah.Sqlite.Lease.{claim_sql, after_claim, with_picker, claim_turns, claim_each}
use keziah.Sqlite.Ids.{Sound, split_bool}
use keziah.Sqlite.Ids.Settle.{SoundResult, claim_sql-Sound, after_claim-Sound}

module _ (C : Codec) where
  with_picker-Sound :
      {P : Type 0} (proposed : P) (r : Result Job × Db C)
      → Sound C r.1
      → Sound C (with_picker C proposed r).1
  with_picker-Sound proposed (err e, t) d = d
  with_picker-Sound proposed (ok job, t) d = d

  module _ (F : Float) (settings : Weights F) (model owner : String) (until now : ℕ) where
    pub claim_turns-Sound :
        (turns : ℕ) (picker : PickerState F) (found : List Candidate) (skipped : List String)
        (db : Db C)
        → Sound C db
        → Sound C (claim_turns C F settings model owner until now turns picker found skipped db).1
    unfolding claim_turns
    claim_turns-Sound zero picker found skipped db d = d
    claim_turns-Sound (suc turns) picker found skipped db d =
        split_option (SoundResult C) (select F settings picker model pool now).0 (λ _. d)
          (λ c _.
            split_if (SoundResult C) (claim_sql C c.job_id owner until now db).0
              (λ _.
                with_picker-Sound (select F settings picker model pool now).1
                  (after_claim C c.job_id now false (claim_sql C c.job_id owner until now db).1)
                  (after_claim-Sound C c.job_id now false
                    (claim_sql C c.job_id owner until now db).1
                    (claim_sql-Sound C c.job_id owner until now db d)))
              (λ _.
                claim_turns-Sound turns picker found (c.job_id ∷ skipped)
                  (claim_sql C c.job_id owner until now db).1
                  (claim_sql-Sound C c.job_id owner until now db d)))
      where
        pool : List Candidate
        pool = keep (λ c. not (contains skipped c.job_id)) found

  pub claim_each-Sound :
      (exclude : List String) (limit : ℕ) (owner : String) (until now : ℕ) (ids : List String)
      (claimed : List Job) (db : Db C)
      → Sound C db
      → Sound C (claim_each C exclude limit owner until now ids claimed db).1
  unfolding claim_each
  claim_each-Sound exclude limit owner until now [] claimed db d = d
  claim_each-Sound exclude limit owner until now (id ∷ ids) claimed db d =
      split_bool (SoundResult C) (contains exclude id)
        (claim_each-Sound exclude limit owner until now ids claimed db d)
        (split_bool (SoundResult C) (leb limit (length claimed)) d (
          split_bool (SoundResult C) (claim_sql C id owner until now db).0
            (read (after_claim C id now true claim) (after_claim-Sound C id now true claim kept)
              (λ job t p.
                claim_each-Sound exclude limit owner until now ids (claimed ++ job ∷ []) t p))
            (claim_each-Sound exclude limit owner until now ids claimed claim kept)))
    where
      claim : Db C
      claim = (claim_sql C id owner until now db).1

      kept : Sound C claim
      kept = claim_sql-Sound C id owner until now db d

      read :
          (r : Result Job × Db C)
          → Sound C r.1
          → ((job : Job) (t : Db C)
              → Sound C t
              → Sound C (claim_each C exclude limit owner until now ids (claimed ++ job ∷ []) t).1)
          → SoundResult C {A = Result (List Job)} (elim r.0 [
            | err e ↦ (err e, r.1)
            | ok job ↦ claim_each C exclude limit owner until now ids (claimed ++ job ∷ []) r.1
          ])
      read (err e, t) p rest = p
      read (ok job, t) p rest = rest job t p
