-- ===== src/Memory/Loops.antt =====
-- Loops over jobs that were listed by a test before the loop began.
use keziah.Base.{
  ◌≡◌, refl, sym, ◌∙◌, inl, inr, String, Bool, true, false, Option, none, some, List, [], ◌∷◌,
  arith, Bool-cases, Dict, contains, keys, Distinct, All, lookup, ◌==◌, string_eq, eq_self,
}
use keziah.Types.{Job}
use keziah.Memory.{Memory, for_each, keys_where}

-- The job under the key, if any, passes the test.
abbrev pub Marks : (Job → Bool) → Dict String Job → String → Type 0
Marks p jobs key = (job : Job) → lookup key jobs ≡ some job → p job ≡ true

contains-keys_where :
    (p : Job → Bool) (m : Dict String Job) (k : String)
    → contains (keys m) k ≡ false
    → contains (keys_where p m) k ≡ false
unfolding contains keys keys_where
contains-keys_where p [] k h = refl
contains-keys_where p ((key, job) ∷ m) k h = ground (arith, contains-keys_where p m k)

pub keys_where-Distinct :
    (p : Job → Bool) (m : Dict String Job) → Distinct (keys m) → Distinct (keys_where p m)
unfolding contains keys keys_where
keys_where-Distinct p [] d = tt
keys_where-Distinct p ((key, job) ∷ m) d =
    ground (arith, keys_where-Distinct p m d.1, contains-keys_where p m key)

-- A key that stands further on in the table is not the first one.
Marks-rest :
    (p : Job → Bool) (key : String) (job : Job) (m : Dict String Job) (ks : List String)
    → contains ks key ≡ false
    → All (Marks p m) ks
    → All (Marks p ((key, job) ∷ m)) ks
unfolding contains lookup
Marks-rest p key job m [] h a = tt
Marks-rest p key job m (k ∷ ks) h a = (
  λ other e. a.0 other (ground (arith, string_eq.beq_iff key k, string_eq.beq_iff k key, h, e)),
  Marks-rest p key job m ks (ground arith) a.1,
)

first_there :
    (key : String) (job : Job) (m : Dict String Job) → lookup key ((key, job) ∷ m) ≡ some job
unfolding lookup
first_there key job m = rw (eq_self key)

pub keys_where-Marks :
    (p : Job → Bool) (m : Dict String Job) → Distinct (keys m) → All (Marks p m) (keys_where p m)
unfolding keys keys_where
keys_where-Marks p [] d = tt
keys_where-Marks p ((key, job) ∷ m) d =
    let rest =
      Marks-rest p key job m (keys_where p m) (contains-keys_where p m key d.0)
        (keys_where-Marks p m d.1) in
    elim (Bool-cases (p job)) [
      | inl e ↦ rw e ((λ other h. ground (arith, first_there key job m, e, h)), rest)
      | inr e ↦ rw e rest
    ]

frame-Marks :
    (p : Job → Bool) (key : String) (m m' : Dict String Job)
    → ((k : String) → (key == k) ≡ false → lookup k m' ≡ lookup k m)
    → (ks : List String) → contains ks key ≡ false
    → All (Marks p m) ks
    → All (Marks p m') ks
unfolding contains
frame-Marks p key m m' frame [] h a = tt
frame-Marks p key m m' frame (k ∷ ks) h a = (
  λ job e.
      a.0 job
        (sym (frame k (ground (arith, string_eq.beq_iff key k, string_eq.beq_iff k key, h))) ∙ e),
  frame-Marks p key m m' frame ks (ground arith) a.1,
)

-- A turn may rely on the test, since the turns before it were at other keys.
pub for_each_marked {ℓ κ} :
    {R : Type ℓ} (P : Memory → Type κ) (p : Job → Bool)
    (body : String → Job → Memory × R → Memory × R)
    → ((key : String) (job : Job) (r : Memory × R)
        → lookup key r.0.jobs ≡ some job
        → p job ≡ true
        → P r.0
        → P (body key job r).0)
    → ((key : String) (job : Job) (r : Memory × R) (k : String)
        → (key == k) ≡ false
        → lookup k (body key job r).0.jobs ≡ lookup k r.0.jobs)
    → (ks : List String) (r : Memory × R) → Distinct ks
    → All (Marks p r.0.jobs) ks
    → P r.0
    → P (for_each ks body r).0
unfolding for_each
for_each_marked P p body keeps frame [] r d a inv = inv
for_each_marked {R = R} P p body keeps frame (key ∷ rest) r d a inv =
    go (λ t marks q. for_each_marked P p body keeps frame rest t d.1 marks q) (lookup key r.0.jobs)
      refl
  where
    next : Option Job → Memory × R
    next found = elim found [ none ↦ r | some job ↦ body key job r ]

    go :
        ((t : Memory × R) → All (Marks p t.0.jobs) rest → P t.0 → P (for_each rest body t).0)
        → (found : Option Job) → lookup key r.0.jobs ≡ found
        → P (for_each rest body (next found)).0
    go loop none e = loop r a.1 inv
    go loop (some job) e =
        loop (body key job r)
          (frame-Marks p key r.0.jobs (body key job r).0.jobs (frame key job r) rest d.0 a.1)
          (keeps key job r e (a.0 job e) inv)
