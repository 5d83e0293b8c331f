-- ===== src/Scheduler/Winner.antt =====
-- Who wins `select` of src/keziah/scheduler.py.
use keziah.Base.{
  ℕ, ◌≡◌, ◌≢◌, refl, sym, ap, subst, ◌∙◌, inl, inr, String, true, false, not, none, some, List, [],
  ◌∷◌, Bool-cases, arith, In, In-keep, keep-In, contains, Dict, ◌==◌, string_eq,
}
use mathlib.Core.Bool.{true≢false}
use keziah.Types.{Candidate, scheduling_classes}
use keziah.Scheduler.Numbers.{Float, IsOrdered}
use keziah.Scheduler.Choice.{max_by-In, max_by-best, job_above_irrefl, job_above_trans}
use keziah.Scheduler.{
  Weights, PickerState, max_by, in_class, is_empty, present_classes, get_or, class_above, job_above,
  accrue, choose_from, select_among, select,
}

not_empty : {A : Type 0} (x : A) (xs : List A) → In x xs → is_empty xs ≡ false
not_empty x [] h = absurd h
not_empty x (y ∷ ys) h = refl

contains-In : (name : String) (names : List String) → contains names name ≡ true → In name names
unfolding contains
contains-In name [] h = absurd (true≢false (sym h))
contains-In name (n ∷ ns) h = elim (Bool-cases (n == name)) [
  | inl e ↦ inl (sym ((string_eq.beq_iff n name).0 e))
  | inr e ↦ inr (contains-In name ns (ground (arith, h, e)))
]

-- The class of a candidate is present, if it is one of the four.
present :
    (candidates : List Candidate) (c : Candidate)
    → In c candidates
    → contains scheduling_classes c.scheduling_class ≡ true
    → is_empty (present_classes candidates) ≡ false
present candidates c h k = not_empty c.scheduling_class (present_classes candidates) (
    keep-In (λ name. not (is_empty (in_class name candidates))) c.scheduling_class
      scheduling_classes (contains-In c.scheduling_class scheduling_classes k)
      (ap not (
        not_empty c (in_class c.scheduling_class candidates) (
          keep-In (λ d. d.scheduling_class == c.scheduling_class) c candidates h
            ((string_eq.beq_iff c.scheduling_class c.scheduling_class).1 refl)))))

-- A property of the result of `choose_from`, from its property of the best of a pool that has one.
some_value : {A : Type 0} {a b : A} → some a ≡ some b → a ≡ b
some_value e = cc

module _ (F : Float) (settings : Weights F) (now : ℕ) (model : String) (state : PickerState F) where
  -- The best of a pool, by the scores of `select`.
  abbrev best : Candidate → List Candidate → Candidate
  best = max_by (job_above F settings now (get_or model state.skips []))

  chosen_best :
      (chosen : String) (credits : Dict String F.Num) (total : F.Num) (pool : List Candidate)
      (c : Candidate)
      → (choose_from F settings now model state chosen credits total pool).0 ≡ some c
      → (d : Candidate) × (ds : List Candidate) × (pool ≡ d ∷ ds) × (best d ds ≡ c)
  chosen_best chosen credits total [] c h = cc
  chosen_best chosen credits total (d ∷ ds) c h = (d, ds, refl, some_value h)

  among_best :
      (candidates : List Candidate) (names : List String) (c : Candidate)
      → (select_among F settings now model state candidates names).0 ≡ some c
      → (chosen : String) × (d : Candidate) × (ds : List Candidate) × (in_class chosen candidates
          ≡ d ∷ ds)
        × (best d ds ≡ c)
  among_best candidates [] c h = cc
  among_best candidates (name ∷ names) c h =
      let earned =
        accrue F settings now candidates (name ∷ names) (get_or model state.credit [])
          (F.of_nat 0) in
      let chosen = max_by (class_above F settings earned.0) name names in
      let (d, ds, pool, same) =
        chosen_best chosen earned.0 earned.1 (in_class chosen candidates) c h in
      (chosen, d, ds, pool, same)

  from_some :
      (chosen : String) (credits : Dict String F.Num) (total : F.Num) (pool : List Candidate)
      → is_empty pool ≡ false
      → (choose_from F settings now model state chosen credits total pool).0 ≢ none
  from_some chosen credits total [] full h = true≢false full
  from_some chosen credits total (d ∷ ds) full h = cc

  among_some :
      (candidates : List Candidate) (names : List String)
      → is_empty names ≡ false
      → ((name : String) → In name names → is_empty (in_class name candidates) ≡ false)
      → (select_among F settings now model state candidates names).0 ≢ none
  among_some candidates [] there full h = true≢false there
  among_some candidates (name ∷ names) there full h =
      let earned =
        accrue F settings now candidates (name ∷ names) (get_or model state.credit [])
          (F.of_nat 0) in
      let chosen = max_by (class_above F settings earned.0) name names in
      from_some chosen earned.0 earned.1 (in_class chosen candidates)
        (full chosen (max_by-In (class_above F settings earned.0) name names)) h

  -- If `select` chooses a candidate, it is one of those it was given.
  pub select-In :
      (candidates : List Candidate) (c : Candidate)
      → (select F settings state model candidates now).0 ≡ some c
      → In c candidates
  unfolding select
  select-In candidates c h =
      let (chosen, d, ds, pool, same) = among_best candidates (present_classes candidates) c h in
      (In-keep (λ x. x.scheduling_class == chosen) c candidates
        (subst (In c) (sym pool) (
          subst (λ x. In x (d ∷ ds)) same
            (max_by-In (job_above F settings now (get_or model state.skips [])) d ds)))).0

  -- The candidate that `select` chooses is one of those it was given; with comparisons that are a
  -- strict order, no candidate of its class stands above it: by score, and by the inverted id among
  -- equal scores.
  pub select-best :
      (ordered : IsOrdered F) (candidates : List Candidate) (c d : Candidate)
      → (select F settings state model candidates now).0 ≡ some c
      → In d candidates
      → d.scheduling_class ≡ c.scheduling_class
      → In c candidates × (job_above F settings now (get_or model state.skips []) d c ≡ false)
  unfolding select
  select-best ordered candidates c d h m same_class =
      let skips = get_or model state.skips [] in
      let above = job_above F settings now skips in
      let (chosen, e, es, pool, same) = among_best candidates (present_classes candidates) c h in
      let won =
        In-keep (λ x. x.scheduling_class == chosen) c candidates
          (subst (In c) (sym pool) (subst (λ x. In x (e ∷ es)) same (max_by-In above e es))) in
      let there : In d (e ∷ es) = subst (In d) pool (
        keep-In (λ x. x.scheduling_class == chosen) d candidates m
          (ap (λ n. n == chosen) same_class ∙ won.1)) in
      (
        won.0,
        subst (λ x. above d x ≡ false) same
            (max_by-best above (job_above_irrefl F ordered settings now skips)
              (job_above_trans F ordered settings now skips) e es d there),
      )

  -- If `select` chooses nothing, no candidate that it was given is of a known class.
  pub select-none :
      (candidates : List Candidate)
      → (select F settings state model candidates now).0 ≡ none
      → (c : Candidate) → In c candidates
      → contains scheduling_classes c.scheduling_class ≡ false
  unfolding select
  select-none candidates h c m =
      elim (Bool-cases (contains scheduling_classes c.scheduling_class)) [
        | inl e ↦ absurd (
            among_some candidates (present_classes candidates) (present candidates c m e) all_full
              h)
        | inr e ↦ e
      ]
    where
      all_full :
          (name : String)
          → In name (present_classes candidates)
          → is_empty (in_class name candidates) ≡ false
      all_full name k =
          let full =
            (In-keep (λ n. not (is_empty (in_class n candidates))) name scheduling_classes k).1 in
          ground (arith, full)
