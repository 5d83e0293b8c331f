-- ===== src/Scheduler.antt =====
-- src/keziah/scheduler.py: weighted choice of a class, then of a job inside the class.
-- Floating-point numbers are a parameter (`Float`); a time is in whole milliseconds.
pub mod Numbers
pub mod Invert
pub mod Choice
pub mod Winner
use keziah.Base.{
  ℕ, suc, String, Bool, true, false, ◌&&◌, ◌||◌, not, Option, none, some, List, [], ◌∷◌, map, ltb,
  if◌then◌else◌, keep, Dict, lookup, insert, contains, ◌==◌, string_eq,
}
use keziah.Types.{Candidate, scheduling_classes}
use keziah.Scheduler.Numbers.{Float}
use keziah.Scheduler.Invert.{invert, text_lt}

-- `dict.get(key, default)`.
abbrev pub get_or {ℓ} : {V : Type ℓ} → String → Dict String V → V → V
get_or k m d = elim (lookup k m) [ none ↦ d | some v ↦ v ]

-- Python's `max(items, key=...)` keeps the first of several greatest items.
unfoldable pub max_by {ℓ} : {A : Type ℓ} → (A → A → Bool) → A → List A → A
max_by greater best [] = best
max_by greater best (x ∷ xs) = max_by greater (if greater x best then x else best) xs

-- The candidates of one class, in the order given: `by_class[name]`.
abbrev pub in_class : String → List Candidate → List Candidate
in_class name = keep (λ c. c.scheduling_class == name)

abbrev pub is_empty {ℓ} : {A : Type ℓ} → List A → Bool
is_empty [] = true
is_empty (x ∷ xs) = false

abbrev pub present_classes : List Candidate → List String
present_classes candidates =
    keep (λ name. not (is_empty (in_class name candidates))) scheduling_classes

-- The classes that stand before `name` in `SCHEDULING_CLASSES`; all of them, if `name` is none of it.
unfoldable pub classes_above : String → List String → List String
classes_above name [] = []
classes_above name (c ∷ cs) = if c == name then [] else c ∷ classes_above name cs

-- `SCHEDULING_CLASSES.index(name)`.
unfoldable pub class_index : String → List String → ℕ
class_index name [] = 0
class_index name (c ∷ cs) = if c == name then 0 else suc (class_index name cs)

-- The client ids of the pool, each once: the set in `select`.
unfoldable pub distinct_clients : List Candidate → List String
distinct_clients [] = []
distinct_clients (c ∷ cs) =
    let rest = distinct_clients cs in if contains rest c.client_id then rest else c.client_id ∷ rest

module _ (F : Float) where
  open F use {Num, of_nat, of_int, add, sub, mul, div, lt, seconds, three_quarters}

  -- `SchedulerSettings`, the fields that `select` reads.
  pub record Weights : Type 0 where
    pub class_weights : Dict String Num
    pub starvation_seconds : Num
    pub starvation_boost_cap : Num
    pub priority_weight : Num
    pub client_skip_weight : Num
    pub age_weight : Num

  pub record PickerState : Type 0 where
    pub credit : Dict String (Dict String Num)
    pub skips : Dict String (Dict String ℕ)

  -- `max(a, b)` and `min(a, b)` keep `a` unless `b` is strictly better.
  abbrev pub max : Num → Num → Num
  max a b = if lt a b then b else a

  abbrev pub min : Num → Num → Num
  min a b = if lt b a then b else a

  unfoldable pub min_of : Num → List Num → Num
  min_of a [] = a
  min_of a (b ∷ bs) = min_of (min a b) bs

  unfoldable pub max_of : Num → List Num → Num
  max_of a [] = a
  max_of a (b ∷ bs) = max_of (max a b) bs

  -- `max(now - item.created_at for item in ...)` over a pool that is not empty.
  abbrev pub oldest_age : ℕ → List Candidate → Num
  oldest_age now [] = of_nat 0
  oldest_age now (c ∷ cs) =
      max_of (seconds now c.created_at) (map (λ d. seconds now d.created_at) cs)

module _ (F : Float) (settings : Weights F) where
  open F use {Num, of_nat, of_int, add, sub, mul, div, lt, seconds, three_quarters}
  open settings use {
    class_weights, starvation_seconds, starvation_boost_cap, priority_weight, client_skip_weight,
    age_weight,
  }

  abbrev pub class_weight : String → Num
  class_weight name = get_or name class_weights (of_nat 1)

  abbrev pub boost : Num → Num
  boost age =
      if lt (of_nat 0) starvation_seconds
      then min F (div age starvation_seconds) starvation_boost_cap
      else of_nat 0

  -- `ceiling`: three quarters of the lightest class above, or no bound for the first class.
  abbrev pub ceiling : Num → Num → List String → Num
  ceiling weight extra [] = add weight extra
  ceiling weight extra (c ∷ cs) =
      mul (min_of F (class_weight c) (map class_weight cs)) three_quarters

  unfoldable pub effective_weight : ℕ → String → List Candidate → Num
  unfolding classes_above min_of max_of
  effective_weight now name pool =
      let weight = class_weight name in
      let extra = boost (oldest_age F now pool) in
      min F (add weight extra)
        (max F weight (ceiling weight extra (classes_above name scheduling_classes)))

  -- The loop over `present`: each class earns its effective weight; the sum is `total_base`.
  unfoldable pub accrue :
      ℕ → List Candidate → List String → Dict String Num → Num → Dict String Num × Num
  accrue now candidates [] credits total = (credits, total)
  accrue now candidates (name ∷ names) credits total =
      let earned = max F (of_nat 0) (effective_weight now name (in_class name candidates)) in
      accrue now candidates names
        (insert name (add (get_or name credits (of_nat 0)) earned) credits) (add total earned)

  -- `class_key(a) > class_key(b)`.
  abbrev pub class_above : Dict String Num → String → String → Bool
  class_above credits a b =
      let x = get_or a credits (of_nat 0) in
      let y = get_or b credits (of_nat 0) in
      lt y x
      || (not (lt x y) && ltb (class_index a scheduling_classes) (class_index b scheduling_classes))

  unfoldable pub score : ℕ → Dict String ℕ → Candidate → Num
  score now skips c =
      add
        (add (mul (of_int c.priority) priority_weight)
          (mul (of_nat (get_or c.client_id skips 0)) client_skip_weight))
        (mul (max F (of_nat 0) (seconds now c.created_at)) age_weight)

  -- `job_score(a) > job_score(b)`: by score, then by the inverted id.
  abbrev pub job_above : ℕ → Dict String ℕ → Candidate → Candidate → Bool
  job_above now skips a b =
      let x = score now skips a in
      let y = score now skips b in
      lt y x || (not (lt x y) && text_lt (invert b.job_id) (invert a.job_id))

  abbrev pub bump : String → String → Dict String ℕ → Dict String ℕ
  bump winner client skips =
      insert client (if client == winner then 0 else suc (get_or client skips 0)) skips

  -- The loop over the clients of the pool.
  unfoldable pub charge_skips : String → List String → Dict String ℕ → Dict String ℕ
  charge_skips winner [] skips = skips
  charge_skips winner (client ∷ rest) skips = charge_skips winner rest (bump winner client skips)

  -- What `select` does once a class is chosen. `pool` is `c ∷ cs`.
  abbrev pub choose_in :
      ℕ
      → String
      → PickerState F
      → String
      → Dict String Num
      → Num
      → Candidate
      → List Candidate
      → Option Candidate × PickerState F
  choose_in now model state chosen credits total c cs =
      let skips = get_or model state.skips [] in
      let best = max_by (job_above now skips) c cs in
      let paid = insert chosen (sub (get_or chosen credits (of_nat 0)) total) credits in
      (
        some best,
        record {
          credit = insert model paid state.credit;
          skips =
              insert model (charge_skips best.client_id (distinct_clients (c ∷ cs)) skips)
                state.skips;
        },
      )

  abbrev pub choose_from :
      ℕ
      → String
      → PickerState F
      → String
      → Dict String Num
      → Num
      → List Candidate
      → Option Candidate × PickerState F
  choose_from now model state chosen credits total [] = (none, state)
  choose_from now model state chosen credits total (c ∷ cs) =
      choose_in now model state chosen credits total c cs

  abbrev pub select_among :
      ℕ → String → PickerState F → List Candidate → List String → Option Candidate × PickerState F
  select_among now model state candidates [] = (none, state)
  select_among now model state candidates (name ∷ names) =
      let earned = accrue now candidates (name ∷ names) (get_or model state.credit []) (of_nat 0) in
      let chosen = max_by (class_above earned.0) name names in
      choose_from now model state chosen earned.0 earned.1 (in_class chosen candidates)

  -- `select`: the chosen candidate, and the state to commit if the claim succeeds.
  unfoldable pub select :
      PickerState F → String → List Candidate → ℕ → Option Candidate × PickerState F
  select state model candidates now =
      select_among now model state candidates (present_classes candidates)
