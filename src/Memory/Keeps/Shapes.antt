-- ===== src/Memory/Keeps/Shapes.antt =====
-- The shapes that the methods share: a guard on the queue, and a guard on one job.
use keziah.Base.{◌≡◌, refl, inl, inr, Bool, true, Option, none, some, if◌then◌else◌, Bool-cases}
use keziah.Types.{Job}
use keziah.Memory.{Memory}

-- A method that acts on one job, if the job is there and passes the guard.
pub one_job {ℓ κ} :
    {A : Type ℓ} (P : Memory → Type κ) (found : Option Job) (guard : Job → Bool)
    (act : Job → Memory) (done missed : A) (s : Memory)
    → P s
    → ((job : Job) → found ≡ some job → guard job ≡ true → P (act job))
    → let r : A × Memory = elim found [
      | none ↦ (missed, s)
      | some job ↦ if guard job then (done, act job) else (missed, s)
    ] in
      P r.1
one_job P none guard act done missed s p acts = p
one_job P (some job) guard act done missed s p acts = elim (Bool-cases (guard job)) [
  | inl e ↦ rw e (acts job refl e)
  | inr e ↦ rw e p
]
