-- ===== src/Config/Merge.antt =====
-- What `_deep_merge` of src/keziah/config.py leaves at each key.
use keziah.Base.{
  ◌≡◌, refl, sym, ap, ◌∙◌, String, false, Option, none, some, if◌then◌else◌, arith, inl, inr,
  Bool-cases, ◌==◌, string_eq, split_if,
}
use keziah.Types.{Value, Fields, end, field, null, bool, num, decimal, str, dict, list, get}
use keziah.Questions.{set_field}
use keziah.Config.{as_dict, deep_merge}

-- A value that is set is found at its key, and the other keys keep theirs.
pub get-set_field :
    (key k : String) (value : Value) (m : Fields)
    → get k (set_field key value m) ≡ (if key == k then some value else get k m)
unfolding get set_field
get-set_field key k value end = refl
get-set_field key k value (field j v rest) = ground (
  arith,
  get-set_field key k value rest,
  string_eq.beq_iff j k,
  string_eq.beq_iff j key,
  string_eq.beq_iff key k,
)

-- The keys of an object are distinct, as those of a Python dict.
abbrev pub DistinctKeys : Fields → Type 0
DistinctKeys end = Unit
DistinctKeys (field k v rest) = (get k rest ≡ none) × DistinctKeys rest

-- What is left at a key that the overlay sets: the two objects merged, or the overlay's value.
abbrev pub merged : Option Value → Value → Value
merged old (dict overlay) = elim (as_dict old) [
  | some base ↦ dict (deep_merge base overlay)
  | none ↦ dict overlay
]
merged old null = null
merged old (bool b) = bool b
merged old (num n) = num n
merged old (decimal t) = decimal t
merged old (str t) = str t
merged old (list xs) = list xs

pub set_field-DistinctKeys :
    (key : String) (value : Value) (m : Fields)
    → DistinctKeys m
    → DistinctKeys (set_field key value m)
unfolding set_field get
set_field-DistinctKeys key value end h = (refl, tt)
set_field-DistinctKeys key value (field k v rest) (fresh, h) =
    split_if DistinctKeys (k == key) (λ e. (fresh, h))
      (λ e. (other e, set_field-DistinctKeys key value rest h))
  where
    other : (k == key) ≡ false → get k (set_field key value rest) ≡ none
    other e =
        get-set_field key k value rest
        ∙ ground (arith, e, fresh, string_eq.beq_iff k key, string_eq.beq_iff key k)

deep_merge-field :
    (base : Fields) (key : String) (v : Value) (rest : Fields)
    → deep_merge base (field key v rest)
      ≡ deep_merge (set_field key (merged (get key base) v) base) rest
unfolding deep_merge
deep_merge-field base key null rest = refl
deep_merge-field base key (bool b) rest = refl
deep_merge-field base key (num n) rest = refl
deep_merge-field base key (decimal t) rest = refl
deep_merge-field base key (str t) rest = refl
deep_merge-field base key (dict m) rest = refl
deep_merge-field base key (list xs) rest = refl

-- At a key, what the overlay has there and what was there before.
abbrev pub laid_over : Option Value → Option Value → Option Value
laid_over old none = old
laid_over old (some v) = some (merged old v)

-- If the keys of the overlay are distinct, `_deep_merge` leaves at each key what was there where the
-- overlay has nothing, the merged objects where both have one, and the overlay's value elsewhere.
pub get-deep_merge :
    (base overlay : Fields) (k : String)
    → DistinctKeys overlay
    → get k (deep_merge base overlay) ≡ laid_over (get k base) (get k overlay)
unfolding get deep_merge
get-deep_merge base end k h = refl
get-deep_merge base (field key v rest) k (fresh, h) =
    let next = set_field key (merged (get key base) v) base in
    ap (get k) (deep_merge-field base key v rest)
    ∙ get-deep_merge next rest k h
    ∙ ap (λ old. laid_over old (get k rest)) (get-set_field key k (merged (get key base) v) base)
    ∙ last
  where
    last :
        laid_over (if key == k then some (merged (get key base) v) else get k base) (get k rest)
        ≡ laid_over (get k base) (if key == k then some v else get k rest)
    last = elim (Bool-cases (key == k)) [
      | inl e ↦ let same = (string_eq.beq_iff key k).0 e in rw (e, sym same, fresh) refl
      | inr e ↦ rw e refl
    ]
