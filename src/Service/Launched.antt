-- ===== src/Service/Launched.antt =====
-- The slots that `_dispatch_available` of src/keziah/service.py takes, and its end.
use keziah.Base.{
  ℕ, zero, suc, ◌+◌, ◌-◌, ◌≡◌, refl, ap, subst, ◌∙◌, arith, String, Bool, true, false, not, Option,
  none, some, List, ltb, leb, split_if, lookup, lookup-insert_self, string_eq,
}
use keziah.Types.{Job}
use keziah.Scheduler.Numbers.{Float}
use keziah.Scheduler.{Weights, PickerState}
use keziah.Memory.{Memory, Result, ok, err}
use keziah.Memory.Lease.{claim_next}
use keziah.Service.{Slots, active_or, try_reserve, release}
use keziah.Service.Dispatch.{
  Spec, Dispatcher, Ending, launched, broken, cut_short, one_more, on_claim, on_more, companions,
  launch, dispatch_model,
}

-- A slot that was granted is counted.
reserved :
    (cap : ℕ) (model : String) (s : Slots)
    → (try_reserve cap model s).0 ≡ true
    → (ltb (active_or 0 model s.active) cap ≡ true)
      × (lookup model (try_reserve cap model s).1.active ≡ some (suc (active_or 0 model s.active)))
unfolding try_reserve
reserved cap model s =
    split_if P (leb cap (active_or 0 model s.active)) (λ _ h. cc)
      (λ below h. (
        ground (arith, below),
        lookup-insert_self model (suc (active_or 0 model s.active)) s.active,
      ))
  where
    P : Bool × Slots → Type 0
    P r =
        r.0 ≡ true
        → (ltb (active_or 0 model s.active) cap ≡ true)
          × (lookup model r.1.active ≡ some (suc (active_or 0 model s.active)))

-- A slot that is given back is counted no more.
released :
    (model : String) (n : ℕ) (s : Slots)
    → lookup model s.active ≡ some (suc n)
    → active_or 0 model (release model s).active ≡ n
unfolding release
released model n s e =
    ap (λ (o : Option ℕ). elim o [ none ↦ 0 | some k ↦ k ])
      (lookup-insert_self model (active_or 1 model s.active - 1) s.active)
    ∙ (ap (λ (o : Option ℕ). (elim o [ none ↦ 1 | some k ↦ k ]) - 1) e ∙ omega arith)

module _ (F : Float) (settings : Weights F) (owner_of : ℕ → String) (now lease_until : ℕ)
    (model : String) (spec : Spec) where
  -- The slots of the model that are held, after an end, where `a` were held before: one for each task, and
  -- one more after an exception.
  abbrev pub Ends :
      ℕ
      → Ending F settings owner_of now lease_until × Dispatcher F settings owner_of now lease_until
      → Type 0
  Ends a (launched n, d) = active_or 0 model d.slots.active ≡ a + n
  Ends a (broken n e, d) = active_or 0 model d.slots.active ≡ suc (a + n)
  Ends a (cut_short, d) = ⊥

  one_more-Ends :
      (a : ℕ)
      (r : Ending F settings owner_of now lease_until
        × Dispatcher F settings owner_of now lease_until)
      → Ends (suc a) r
      → Ends a (one_more F settings owner_of now lease_until r)
  one_more-Ends a (launched n, d) e = e ∙ omega arith
  one_more-Ends a (broken n x, d) e = e ∙ omega arith
  one_more-Ends a (cut_short, d) e = e

  on_claim-Ends :
      (a : ℕ) (r : Result (Option Job × PickerState F))
      (held : Dispatcher F settings owner_of now lease_until)
      (idle : PickerState F → Dispatcher F settings owner_of now lease_until)
      (next : Job
        → PickerState F
        → Ending F settings owner_of now lease_until
          × Dispatcher F settings owner_of now lease_until)
      → active_or 0 model held.slots.active ≡ suc a
      → ((picker : PickerState F) → active_or 0 model (idle picker).slots.active ≡ a)
      → ((job : Job) (picker : PickerState F) → Ends a (next job picker))
      → Ends a (on_claim F settings owner_of now lease_until r held idle next)
  on_claim-Ends a (err e) held idle next h i n = h ∙ omega arith
  on_claim-Ends a (ok (none, picker)) held idle next h i n = i picker ∙ omega arith
  on_claim-Ends a (ok (some job, picker)) held idle next h i n = n job picker

  on_more-Ends :
      (a : ℕ) (r : Result (List Job)) (paired : Dispatcher F settings owner_of now lease_until)
      (next : List Job
        → Ending F settings owner_of now lease_until
          × Dispatcher F settings owner_of now lease_until)
      → active_or 0 model paired.slots.active ≡ suc a
      → ((others : List Job) → Ends (suc a) (next others))
      → Ends a (on_more F settings owner_of now lease_until r paired next)
  on_more-Ends a (err e) paired next h n = h ∙ omega arith
  on_more-Ends a (ok others) paired next h n = one_more-Ends a (next others) (n others)

  dispatch_turns-Ends :
      (turns a : ℕ) (d : Dispatcher F settings owner_of now lease_until)
      → active_or 0 model d.slots.active ≡ a
      → ltb (spec.cap - a) turns ≡ true
      → Ends a (dispatch_model F settings owner_of now lease_until turns model spec d)
  unfolding dispatch_model
  dispatch_turns-Ends zero a d e h = ground (arith, h)
  dispatch_turns-Ends (suc turns) a d e h =
      split_if (Ends a) (not (try_reserve spec.cap model d.slots).0) (λ _. e ∙ omega arith)
        (λ granted.
          let r = reserved spec.cap model d.slots (given granted) in
          let counted : lookup model taken.active ≡ some (suc a) = r.1 ∙ ap (λ n. some (suc n)) e in
          on_claim-Ends a claim.0 held
            (λ picker. record held { slots = release model taken; picker = picker }) next
            (ap (λ (o : Option ℕ). elim o [ none ↦ 0 | some k ↦ k ]) counted)
            (λ picker. released model a taken counted)
            (λ job picker.
              on_more-Ends a
                (companions F settings owner_of now lease_until model spec owner job claim.1).0
                (paired job picker)
                (λ others. dispatch_model F settings owner_of now lease_until turns model spec (
                  launch F settings owner_of now lease_until model owner job others
                    (paired job picker)))
                (ap (λ (o : Option ℕ). elim o [ none ↦ 0 | some k ↦ k ]) counted)
                (λ others.
                  dispatch_turns-Ends turns (suc a)
                    (launch F settings owner_of now lease_until model owner job others
                      (paired job picker))
                    (ap (λ (o : Option ℕ). elim o [ none ↦ 0 | some k ↦ k ]) counted)
                    (below (subst (λ n. ltb n spec.cap ≡ true) e r.0)))))
    where
      given : {b : Bool} → not b ≡ false → b ≡ true
      given h = ground (arith, h)

      below : ltb a spec.cap ≡ true → ltb (spec.cap - suc a) turns ≡ true
      below k = ground (arith, k, h)

      taken : Slots
      taken = (try_reserve spec.cap model d.slots).1

      owner : String
      owner = owner_of d.drawn

      claim : Result (Option Job × PickerState F) × Memory
      claim = claim_next F settings model owner lease_until now d.picker d.queue

      held : Dispatcher F settings owner_of now lease_until
      held = record d { slots = taken; queue = claim.1; drawn = suc d.drawn }

      paired : Job → PickerState F → Dispatcher F settings owner_of now lease_until
      paired job picker = record held {
        queue = (companions F settings owner_of now lease_until model spec owner job claim.1).1;
        picker = picker;
      }

      next :
          Job
          → PickerState F
          → Ending F settings owner_of now lease_until
            × Dispatcher F settings owner_of now lease_until
      next job picker =
          on_more F settings owner_of now lease_until
            (companions F settings owner_of now lease_until model spec owner job claim.1).0
            (paired job picker)
            (λ others. dispatch_model F settings owner_of now lease_until turns model spec (
              launch F settings owner_of now lease_until model owner job others
                (paired job picker)))

  -- The loop of a model ends within a turn for each of its slots and one more. It then holds a slot for
  -- each task that it launched beside those held before, and after an exception of the queue one more,
  -- which no task will give back.
  pub dispatch_model-Ends :
      (d : Dispatcher F settings owner_of now lease_until)
      → Ends
          (active_or 0 model d.slots.active)
          (dispatch_model F settings owner_of now lease_until (suc spec.cap) model spec d)
  dispatch_model-Ends d =
      dispatch_turns-Ends (suc spec.cap) (active_or 0 model d.slots.active) d refl
        (enough spec.cap (active_or 0 model d.slots.active))
    where
      enough : (cap a : ℕ) → ltb (cap - a) (suc cap) ≡ true
      enough cap a = ground arith
