-- ===== src/Scheduler/Choice.antt =====
-- What `select` of src/keziah/scheduler.py chooses.
use keziah.Base.{
  ℕ, ◌≡◌, refl, sym, ap, ◌∙◌, inl, inr, String, Bool, true, false, List, [], ◌∷◌, arith, Bool-cases,
  split_if, In, Dict, string_eq,
}
use mathlib.Core.Bool.{true≢false}
use keziah.Types.{Candidate}
use keziah.Scheduler.Numbers.{Float, IsOrdered}
use keziah.Scheduler.Invert.{text_lt, invert}
use keziah.Scheduler.{Weights, max_by, job_above, score}

-- `max` returns one of its items.
pub max_by-In :
    {A : Type 0} (greater : A → A → Bool) (best : A) (xs : List A)
    → In (max_by greater best xs) (best ∷ xs)
unfolding max_by
max_by-In greater best [] = inl refl
max_by-In greater best (x ∷ xs) =
    split_if (λ b. In (max_by greater b xs) (best ∷ x ∷ xs)) (greater x best)
      (λ e. inr (max_by-In greater x xs))
      (λ e. elim (max_by-In greater best xs) [ inl same ↦ inl same | inr later ↦ inr (inr later) ])

module _ {A : Type 0} (greater : A → A → Bool) (irrefl : (a : A) → greater a a ≡ false)
    (trans : (a b c : A) → greater a b ≡ true → greater b c ≡ true → greater a c ≡ true) where
  -- What is not above the best so far is not above the result.
  max_by-keeps :
      (z best : A) (xs : List A)
      → greater z best ≡ false
      → greater z (max_by greater best xs) ≡ false
  unfolding max_by
  max_by-keeps z best [] h = h
  max_by-keeps z best (y ∷ ys) h = elim (Bool-cases (greater y best)) [
    | inl e ↦
        rw (e, max_by)
          (max_by-keeps z y ys (elim (Bool-cases (greater z y)) [
            | inl f ↦ absurd (true≢false (sym (trans z y best f e) ∙ h))
            | inr f ↦ f
          ]))
    | inr e ↦ rw (e, max_by) (max_by-keeps z best ys h)
  ]

  -- No item is greater than the one that `max` returns, if `greater` is a strict order.
  pub max_by-best :
      (best : A) (xs : List A) (x : A)
      → In x (best ∷ xs)
      → greater x (max_by greater best xs) ≡ false
  unfolding max_by
  max_by-best best xs x (inl same) =
      max_by-keeps x best xs (ap (λ a. greater a best) same ∙ irrefl best)
  max_by-best best [] x (inr h) = absurd h
  max_by-best best (y ∷ ys) x (inr (inl same)) = elim (Bool-cases (greater y best)) [
    | inl e ↦ rw (e, max_by) (max_by-keeps x y ys (ap (λ a. greater a y) same ∙ irrefl y))
    | inr e ↦ rw (e, max_by) (max_by-keeps x best ys (ap (λ a. greater a best) same ∙ e))
  ]
  max_by-best best (y ∷ ys) x (inr (inr later)) = elim (Bool-cases (greater y best)) [
    | inl e ↦ rw (e, max_by) (max_by-best y ys x (inr later))
    | inr e ↦ rw (e, max_by) (max_by-best best ys x (inr later))
  ]

text_lt_irrefl : (a : List ℕ) → text_lt a a ≡ false
unfolding text_lt
text_lt_irrefl [] = refl
text_lt_irrefl (c ∷ cs) = ground (arith, text_lt_irrefl cs)

text_lt_trans : (a b c : List ℕ) → text_lt a b ≡ true → text_lt b c ≡ true → text_lt a c ≡ true
unfolding text_lt
text_lt_trans a [] c h k = cc
text_lt_trans a (d ∷ ds) [] h k = cc
text_lt_trans [] (d ∷ ds) (e ∷ es) h k = refl
text_lt_trans (c ∷ cs) (d ∷ ds) (e ∷ es) h k = ground (arith, text_lt_trans cs ds es)

module _ (F : Float) (ordered : IsOrdered F) (settings : Weights F) where
  open ordered use {lt_irrefl, lt_trans, lt_split}

  pub job_above_irrefl :
      (now : ℕ) (skips : Dict String ℕ) (c : Candidate) → job_above F settings now skips c c ≡ false
  job_above_irrefl now skips c =
      ground (arith, lt_irrefl (score F settings now skips c), text_lt_irrefl (invert c.job_id))

  pub job_above_trans :
      (now : ℕ) (skips : Dict String ℕ) (a b c : Candidate)
      → job_above F settings now skips a b ≡ true
      → job_above F settings now skips b c ≡ true
      → job_above F settings now skips a c ≡ true
  job_above_trans now skips a b c h k =
      let x = score F settings now skips a in
      let y = score F settings now skips b in
      let z = score F settings now skips c in
      ground (
        arith,
        lt_trans z y x,
        lt_split z y x,
        lt_split y x z,
        lt_split x y z,
        lt_split x z y,
        lt_split y z x,
        lt_split z x y,
        text_lt_trans (invert c.job_id) (invert b.job_id) (invert a.job_id),
      )
