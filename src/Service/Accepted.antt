-- ===== src/Service/Accepted.antt =====
-- What `_build_job` of src/keziah/service.py accepts.
use keziah.Base.{
  ℕ, ◌≡◌, refl, sym, ap, subst, ◌∙◌, arith, String, Bool, true, false, ◌||◌, not, Option, none, ltb,
  if◌then◌else◌, split_if, contains, lookup, Dict, ◌==◌, string_eq,
}
use keziah.Base.Int.{ℤ, pos, negsuc, ltb_ℤ}
use keziah.Types.{
  is_held, is_terminal, State, Job, Batch, Value, Fields, scheduling_classes, null, num, bool,
  decimal, str, dict, list,
}
use keziah.Questions.{QuestionError, Checked, good, bad, normalise_questions, valid_state}
use keziah.Registry.{Settings, Resolution, Outcome, done, raised, resolve}
use keziah.Memory.{batch_is_active, is_some, is_after}
use keziah.Memory.Invariant.{is_gated, is_started}
use keziah.Memory.Keeps.Submit.{IsNew}
use keziah.Service.Build.{
  Outside, Policy, Order, Built, built, refused, BuildError, class_or, class_of, in_range,
  priority_of, enough, attempts_of, timeout_of, normalise_deadline, payload_of, first_state,
  new_job, build_resolved, build_checked, build_job,
}

-- What holds of the value, if there is one.
abbrev Holds {ℓ} : {A : Type ℓ} → (A → Type 0) → Built A → Type 0
Holds P (built a) = P a
Holds P (refused e) = Unit

-- A refusal under a test.
passed {ℓ} :
    {A : Type ℓ} (P : A → Type 0) (b : Bool) (e : BuildError) (a : A)
    → (b ≡ true → P a)
    → Holds P (if not b then refused e else built a)
passed P true e a h = h refl
passed P false e a h = tt

class_of-Holds :
    (default : String) (value : Option String)
    → Holds (λ name. contains scheduling_classes name ≡ true) (class_of default value)
unfolding class_of
class_of-Holds default value =
    passed (λ name. contains scheduling_classes name ≡ true)
      (contains scheduling_classes (class_or default value)) BuildError.bad_class
      (class_or default value) (λ h. h)

priority_of-Holds : (value : Value) → Holds (λ n. in_range n ≡ true) (priority_of value)
unfolding priority_of
priority_of-Holds (num n) =
    passed (λ n. in_range n ≡ true) (in_range n) BuildError.bad_priority n (λ h. h)
priority_of-Holds null = tt
priority_of-Holds (bool b) = tt
priority_of-Holds (decimal text) = tt
priority_of-Holds (str text) = tt
priority_of-Holds (dict m) = tt
priority_of-Holds (list xs) = tt

enough-Holds : (n : ℤ) → Holds (λ n. ltb 0 n ≡ true) (enough n)
enough-Holds (pos n) =
    split_if (Holds (λ n. ltb 0 n ≡ true)) (ltb_ℤ (pos n) (pos 1)) (λ _. tt)
      (λ h. ground (arith, h))
enough-Holds (negsuc n) =
    split_if (Holds (λ n. ltb 0 n ≡ true)) (ltb_ℤ (negsuc n) (pos 1)) (λ _. tt)
      (λ h. ground (arith, h))

attempts_of-Holds :
    (default : ℤ) (value : Value) → Holds (λ n. ltb 0 n ≡ true) (attempts_of default value)
unfolding attempts_of
attempts_of-Holds default null = enough-Holds default
attempts_of-Holds default (num n) = enough-Holds n
attempts_of-Holds default (bool b) = tt
attempts_of-Holds default (decimal text) = tt
attempts_of-Holds default (str text) = tt
attempts_of-Holds default (dict m) = tt
attempts_of-Holds default (list xs) = tt

-- The cases of a value that may be refused.
split_built {ℓ κ} :
    {A : Type ℓ} {B : Type κ} (P : B → Type 0) (Q : A → Type 0) (o : Built A) {f : BuildError → B}
    {g : A → B}
    → Holds Q o
    → ((e : BuildError) → P (f e))
    → ((a : A) → Q a → P (g a))
    → P (elim o [ refused e ↦ f e | built a ↦ g a ])
split_built P Q (built a) q h k = k a q
split_built P Q (refused e) q h k = h e

any_value {ℓ} : {A : Type ℓ} (o : Built A) → Holds (λ a. Unit) o
any_value (built a) = tt
any_value (refused e) = tt

module _ (O : Outside) (healthy : String → Bool) (settings : Settings) (policy : Policy)
    (id solo : String) (now : ℕ) (order : Order) where
  -- The fields of a new job.
  abbrev pub JobNew : Job → Type 0
  JobNew job =
      (job.job_id ≡ id)
      × (job.state ≡ first_state O order.batch_id)
      × (job.batch_id ≡ order.batch_id)
      × (job.lease_owner ≡ none)
      × (job.lease_expires_at ≡ none)
      × (job.finished_at ≡ none)
      × (job.not_before ≡ none)

  -- What the checks let through: a known class, a priority within its range, at least one attempt, a
  -- payload within its size, the model that the registry resolves to, and the fields of a new job.
  abbrev pub Accepted : Job → Type 0
  Accepted job =
      (contains scheduling_classes job.scheduling_class ≡ true)
      × (in_range job.priority ≡ true)
      × (ltb 0 job.max_attempts ≡ true)
      × (ltb policy.max_request_bytes (O.size job.payload) ≡ false)
      × ((r : Resolution) × ((resolve healthy settings order.model ≡ done r)
            × (job.resolved_model ≡ r.resolved)))
      × (policy.accepting ≡ true)
      × JobNew job

  build_job-Holds : Holds Accepted (build_job O healthy settings policy id solo now order)
  unfolding build_job build_checked build_resolved new_job
  build_job-Holds =
      split_if (Holds Accepted) (not policy.accepting) (λ _. tt)
        λ open_.
          split_if (Holds Accepted) (order.model == "") (λ _. tt)
            λ _.
              split_built (Holds Accepted) (λ name. contains scheduling_classes name ≡ true)
                (class_of policy.default_class order.scheduling_class)
                (class_of-Holds policy.default_class order.scheduling_class) (λ e. tt)
                λ class_ known.
                  split_built (Holds Accepted) (λ n. in_range n ≡ true) (priority_of order.priority)
                    (priority_of-Holds order.priority) (λ e. tt)
                    (λ priority ranged. checked class_ priority known ranged (accepts open_))
    where
      accepts : not policy.accepting ≡ false → policy.accepting ≡ true
      accepts h = ground (arith, h)

      resolved :
          (class_ : String) (priority : ℤ) (questions : Fields) (deadline : Option ℕ)
          (timeout : Option ℤ) (r : Resolution)
          → contains scheduling_classes class_ ≡ true
          → in_range priority ≡ true
          → policy.accepting ≡ true
          → resolve healthy settings order.model ≡ done r
          → Holds Accepted (
              build_resolved O healthy settings policy id solo now order class_ priority questions
                deadline timeout r)
      resolved class_ priority questions deadline timeout r known ranged open_ e =
          split_if (Holds Accepted)
            (ltb policy.max_request_bytes
              (O.size (payload_of O order.state questions order.parameters)))
            (λ _. tt)
            λ small.
              split_built (Holds Accepted) (λ n. ltb 0 n ≡ true)
                (attempts_of policy.default_max_attempts order.max_attempts)
                (attempts_of-Holds policy.default_max_attempts order.max_attempts) (λ e. tt)
                (λ attempts some_. (
                  known,
                  ranged,
                  some_,
                  small,
                  (r, (e, refl)),
                  open_,
                  (refl, refl, refl, refl, refl, refl, refl),
                ))

      on_model :
          (class_ : String) (priority : ℤ) (questions : Fields) (deadline : Option ℕ)
          (timeout : Option ℤ)
          → contains scheduling_classes class_ ≡ true
          → in_range priority ≡ true
          → policy.accepting ≡ true
          → (o : Outcome Resolution) → resolve healthy settings order.model ≡ o
          → Holds Accepted (elim o [
            | raised e ↦ refused (BuildError.bad_model e)
            | done r ↦
                build_resolved O healthy settings policy id solo now order class_ priority questions
                  deadline timeout r
          ])
      on_model class_ priority questions deadline timeout known ranged open_ (raised e) h = tt
      on_model class_ priority questions deadline timeout known ranged open_ (done r) h =
          resolved class_ priority questions deadline timeout r known ranged open_ h

      on_questions :
          {B : Type 0} (P : B → Type 0) (o : Checked Fields) {f : QuestionError → B}
          {g : Fields → B}
          → ((e : QuestionError) → P (f e))
          → ((m : Fields) → P (g m))
          → P (elim o [ bad e ↦ f e | good m ↦ g m ])
      on_questions P (good m) h k = k m
      on_questions P (bad e) h k = h e

      checked :
          (class_ : String) (priority : ℤ)
          → contains scheduling_classes class_ ≡ true
          → in_range priority ≡ true
          → policy.accepting ≡ true
          → Holds Accepted
              (build_checked O healthy settings policy id solo now order class_ priority)
      checked class_ priority known ranged open_ =
          split_if (Holds Accepted) (not (valid_state order.state)) (λ _. tt)
            λ _.
              on_questions (Holds Accepted)
                (normalise_questions O.text_of policy.max_questions order.questions) (λ e. tt)
                λ questions.
                  split_built (Holds Accepted) (λ d. Unit) (normalise_deadline O order.deadline_at)
                    (any_value (normalise_deadline O order.deadline_at)) (λ e. tt)
                    λ deadline _.
                      split_built (Holds Accepted) (λ t. Unit)
                        (timeout_of order.execution_timeout_ms)
                        (any_value (timeout_of order.execution_timeout_ms)) (λ e. tt)
                        λ timeout _.
                          on_model class_ priority questions deadline timeout known ranged open_
                            (resolve healthy settings order.model) refl

  -- A job that `_build_job` accepts, while the service accepts work, is of a known class, has a priority
  -- from -1,000,000 to 1,000,000, at least one attempt and a payload within its size, is to run on the
  -- model that the registry resolves its name to, and is new: without lease, end or delay, queued alone
  -- and staged in a batch.
  pub build_job-Accepted :
      (job : Job) → build_job O healthy settings policy id solo now order ≡ built job → Accepted job
  build_job-Accepted job e = subst (Holds Accepted) e build_job-Holds

  -- A job that was accepted alone, under an id that the queue does not hold, is one that the queue's
  -- invariant allows to be submitted.
  pub build_job-IsNew :
      (job : Job) (batches : Dict String Batch) (jobs : Dict String Job)
      → order.batch_id ≡ none
      → lookup id jobs ≡ none
      → build_job O healthy settings policy id solo now order ≡ built job
      → IsNew now batches jobs job
  unfolding batch_is_active
  build_job-IsNew job batches jobs alone unused e =
      let (_, _, _, _, _, _, (named, state, batch, owner, expires, finished, delay)) =
        build_job-Accepted job e in
      let queued : job.state ≡ State.queued = state ∙ ap (first_state O) alone in
      record {
        fresh = ap (λ key. lookup key jobs) named ∙ unused;
        sound = record {
          named = refl;
          owned = ap (λ o. is_some o) owner ∙ sym (ap (λ x. is_held x) queued);
          timed = ap (λ o. is_some o) expires ∙ sym (ap (λ x. is_held x) queued);
          ended = ap (λ o. is_some o) finished ∙ sym (ap (λ x. is_terminal x) queued);
          gated = λ i. is_gated (queued i) || batch_is_active ((batch ∙ alone) i) batches;
          ripe = λ i. not (is_started (queued i)) || not (is_after (delay i) now);
        };
      }
