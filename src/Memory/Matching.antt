-- ===== src/Memory/Matching.antt =====
-- The jobs that `claim_compatible` picks: a sorted prefix of the entries that pass its test. Each of
-- them is in the table once, and passes the test.
use keziah.Base.{
  ℕ, zero, suc, ◌≡◌, refl, inl, inr, String, Bool, false, ◌||◌, List, [], ◌∷◌, arith, Bool-cases,
  Dict, contains, keys, Distinct, All, take, insert_by, sort_onto, sort_by, ◌==◌, string_eq,
}
use keziah.Types.{Job}
use keziah.Memory.{keys_where}
use keziah.Memory.Lease.{matching, entry_keys}
use keziah.Memory.Loops.{Marks, keys_where-Distinct, keys_where-Marks}

entry_keys-matching :
    (p : Job → Bool) (m : Dict String Job) → entry_keys (matching p m) ≡ keys_where p m
unfolding entry_keys matching keys_where
entry_keys-matching p [] = refl
entry_keys-matching p ((key, job) ∷ m) = ground (arith, entry_keys-matching p m)

module _ (before : String × Job → String × Job → Bool) where
  contains-insert_by :
      (x : String × Job) (ys : List (String × Job)) (k : String)
      → contains (entry_keys (insert_by before x ys)) k ≡ (x.0 == k || contains (entry_keys ys) k)
  unfolding entry_keys insert_by contains
  contains-insert_by x [] k = refl
  contains-insert_by x (y ∷ ys) k = ground (arith, contains-insert_by x ys k)

  insert_by-Distinct :
      (x : String × Job) (ys : List (String × Job))
      → contains (entry_keys ys) x.0 ≡ false
      → Distinct (entry_keys ys)
      → Distinct (entry_keys (insert_by before x ys))
  unfolding entry_keys insert_by contains
  insert_by-Distinct x [] h d = (refl, tt)
  insert_by-Distinct x (y ∷ ys) h d = ground (
    arith,
    insert_by-Distinct x ys (ground arith) d.1,
    contains-insert_by x ys y.0,
    string_eq.beq_iff x.0 y.0,
    string_eq.beq_iff y.0 x.0,
  )

  insert_by-All :
      (P : String → Type 0) (x : String × Job) (ys : List (String × Job))
      → P x.0
      → All P (entry_keys ys)
      → All P (entry_keys (insert_by before x ys))
  unfolding entry_keys insert_by
  insert_by-All P x [] p a = (p, tt)
  insert_by-All P x (y ∷ ys) p a = elim (Bool-cases (before x y)) [
    | inl e ↦ rw (e, insert_by, entry_keys) (p, a)
    | inr e ↦ rw (e, insert_by, entry_keys) (a.0, insert_by-All P x ys p a.1)
  ]

  abbrev Apart : List (String × Job) → List (String × Job) → Type 0
  Apart xs ys = All (λ k. contains (entry_keys ys) k ≡ false) (entry_keys xs)

  Apart-insert :
      (x : String × Job) (xs ys : List (String × Job))
      → contains (entry_keys xs) x.0 ≡ false
      → Apart xs ys
      → Apart xs (insert_by before x ys)
  unfolding entry_keys contains
  Apart-insert x [] ys h a = tt
  Apart-insert x (z ∷ xs) ys h a = (
    ground (
      arith,
      contains-insert_by x ys z.0,
      a.0,
      string_eq.beq_iff x.0 z.0,
      string_eq.beq_iff z.0 x.0,
    ),
    Apart-insert x xs ys (ground arith) a.1,
  )

  sort_onto-keeps :
      (P : String → Type 0) (xs ys : List (String × Job))
      → Distinct (entry_keys xs)
      → All P (entry_keys xs)
      → Apart xs ys
      → Distinct (entry_keys ys)
      → All P (entry_keys ys)
      → Distinct (entry_keys (sort_onto before xs ys)) × All P (entry_keys (sort_onto before xs ys))
  unfolding sort_onto entry_keys
  sort_onto-keeps P [] ys d a apart e b = (e, b)
  sort_onto-keeps P (x ∷ xs) ys d a apart e b =
      sort_onto-keeps P xs (insert_by before x ys) d.1 a.1 (Apart-insert x xs ys d.0 apart.1)
        (insert_by-Distinct x ys apart.0 e) (insert_by-All P x ys a.0 b)

contains-take :
    (n : ℕ) (xs : List (String × Job)) (k : String)
    → contains (entry_keys xs) k ≡ false
    → contains (entry_keys (take n xs)) k ≡ false
unfolding contains entry_keys
contains-take zero xs k h = refl
contains-take (suc n) [] k h = refl
contains-take (suc n) (x ∷ xs) k h = ground (arith, contains-take n xs k (ground arith))

take-keeps :
    (P : String → Type 0) (n : ℕ) (xs : List (String × Job))
    → Distinct (entry_keys xs)
    → All P (entry_keys xs)
    → Distinct (entry_keys (take n xs)) × All P (entry_keys (take n xs))
unfolding entry_keys contains
take-keeps P zero xs d a = (tt, tt)
take-keeps P (suc n) [] d a = (tt, tt)
take-keeps P (suc n) (x ∷ xs) d a =
    let (e, b) = take-keeps P n xs d.1 a.1 in ((contains-take n xs x.0 d.0, e), (a.0, b))

-- The keys that the loop of `claim_compatible` runs over.
abbrev pub chosen_keys :
    (String × Job → String × Job → Bool) → (Job → Bool) → ℕ → Dict String Job → List String
chosen_keys before p limit m = entry_keys (take limit (sort_by before (matching p m)))

pub chosen_keys-keeps :
    (before : String × Job → String × Job → Bool) (p : Job → Bool) (limit : ℕ) (m : Dict String Job)
    → Distinct (keys m)
    → Distinct (chosen_keys before p limit m) × All (Marks p m) (chosen_keys before p limit m)
unfolding sort_by entry_keys contains
chosen_keys-keeps before p limit m d =
    let (e, a) =
      sort_onto-keeps before (Marks p m) (matching p m) []
        (rw entry_keys-matching (keys_where-Distinct p m d))
        (rw entry_keys-matching (keys_where-Marks p m d)) (apart_nil (matching p m)) tt tt in
    take-keeps (Marks p m) limit (sort_onto before (matching p m) []) e a
  where
    apart_nil : (xs : List (String × Job)) → Apart before xs []
    apart_nil [] = tt
    apart_nil (x ∷ xs) = (refl, apart_nil xs)
