-- ===== src/Metrics.antt =====
-- `Histogram` of src/keziah/telemetry/metrics.py. A bucket's bound and its count stand together;
-- numbers, their `<=` and their sum are parameters.
use keziah.Base.{ℕ, suc, ◌+◌, ◌≡◌, refl, Bool, true, false, List, [], ◌∷◌, arith, if◌then◌else◌}

module _ (Num : Type 0) (le : Num → Num → Bool) (add : Num → Num → Num) where
  pub record Histogram : Type 0 where
    pub buckets : List (Num × ℕ)
    pub inf : ℕ
    pub total : ℕ
    pub sum : Num

  -- `__init__`, over the bounds.
  unfoldable pub no_counts : List Num → List (Num × ℕ)
  no_counts [] = []
  no_counts (bound ∷ rest) = (bound, 0) ∷ no_counts rest

  unfoldable pub new_histogram : List Num → Num → Histogram
  unfolding no_counts
  new_histogram bounds zero_ = record {
    buckets = no_counts bounds;
    inf = 0;
    total = 0;
    sum = zero_;
  }

  -- The loop of `observe`: the first bucket whose bound the value does not pass; and whether there is one.
  unfoldable pub place : Num → List (Num × ℕ) → Bool × List (Num × ℕ)
  place value [] = (false, [])
  place value ((bound, n) ∷ rest) =
      let later = place value rest in
      if le value bound then (true, (bound, suc n) ∷ rest) else (later.0, (bound, n) ∷ later.1)

  unfoldable pub observe : Num → Histogram → Histogram
  unfolding place
  observe value h =
      let placed = place value h.buckets in
      record {
        buckets = placed.1;
        inf = if placed.0 then h.inf else suc h.inf;
        total = suc h.total;
        sum = add h.sum value;
      }

  -- The values counted in the buckets.
  unfoldable pub counted : List (Num × ℕ) → ℕ
  counted [] = 0
  counted ((bound, n) ∷ rest) = n + counted rest

  place-counted :
      (value : Num) (buckets : List (Num × ℕ))
      → counted (place value buckets).1
        ≡ (if (place value buckets).0 then suc (counted buckets) else counted buckets)
  unfolding place counted
  place-counted value [] = refl
  place-counted value ((bound, n) ∷ rest) = ground (arith, place-counted value rest)

  -- If the counts of the buckets and of the values above them add up to the total, they still do
  -- after one more value is observed.
  pub observe-counted :
      (value : Num) (h : Histogram)
      → counted h.buckets + h.inf ≡ h.total
      → counted (observe value h).buckets + (observe value h).inf ≡ (observe value h).total
  unfolding observe
  observe-counted value h e = ground (arith, e, place-counted value h.buckets)
