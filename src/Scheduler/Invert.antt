-- ===== src/Scheduler/Invert.antt =====
-- `_invert` of src/keziah/scheduler.py, and the order of Python strings by code points.
use Prim.Native.Char.{code}
use Prim.Native.String.{String}
use keziah.Base.{
  ℕ, ◌-◌, ◌≤◌, ◌≡◌, refl, Bool, true, false, List, [], ◌∷◌, arith, ltb, if◌then◌else◌, length, All,
}

-- The code points of a string.
abbrev pub codes : String → List ℕ
codes String.[] = []
codes (String.◌∷◌ c s) = code c ∷ codes s

abbrev pub invert_codes : List ℕ → List ℕ
invert_codes [] = []
invert_codes (c ∷ cs) = (0x10FFFF - c) ∷ invert_codes cs

unfoldable pub invert : String → List ℕ
invert value = invert_codes (codes value)

-- `a < b` on strings: a proper prefix is smaller.
unfoldable pub text_lt : List ℕ → List ℕ → Bool
text_lt a [] = false
text_lt [] (d ∷ ds) = true
text_lt (c ∷ cs) (d ∷ ds) =
    let rest = text_lt cs ds in if ltb c d then true else if ltb d c then false else rest

-- Between texts of one length, all of Unicode code points, the inversion turns the order round.
pub text_lt-invert_codes :
    (a b : List ℕ)
    → length a ≡ length b
    → All (λ c. c ≤ 0x10FFFF) a
    → All (λ c. c ≤ 0x10FFFF) b
    → text_lt (invert_codes a) (invert_codes b) ≡ text_lt b a
unfolding text_lt
text_lt-invert_codes [] [] e ha hb = refl
text_lt-invert_codes [] (d ∷ ds) e ha hb = absurd (omega arith)
text_lt-invert_codes (c ∷ cs) [] e ha hb = absurd (omega arith)
text_lt-invert_codes (c ∷ cs) (d ∷ ds) e ha hb =
    ground (arith, text_lt-invert_codes cs ds (omega arith) ha.1 hb.1)
