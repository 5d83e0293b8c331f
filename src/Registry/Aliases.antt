-- ===== src/Registry/Aliases.antt =====
-- Following aliases ends: in a name that is no alias, or in a cycle that is found.
use keziah.Base.{
  ℕ, zero, suc, ◌≤◌, ◌≡◌, refl, String, true, false, not, none, some, List, [], ◌∷◌, arith,
  split_if, split_option, length, count, Dict, lookup, keys, contains, contains-lookup, string_eq,
}
use keziah.Registry.{Outcome, done, raised, RegistryError, follow_from, follow}

-- The names of a table that have not been seen.
abbrev unseen : List String → List String → ℕ
unseen seen names = count (λ k. not (contains seen k)) names

unseen-length :
    (seen : List String) (aliases : Dict String String)
    → unseen seen (keys aliases) ≤ length aliases
unfolding keys
unseen-length seen [] = omega arith
unseen-length seen ((k, v) ∷ m) = ground (arith, unseen-length seen m)

unseen-less : (c : String) (seen names : List String) → unseen (c ∷ seen) names ≤ unseen seen names
unfolding contains
unseen-less c seen [] = omega arith
unseen-less c seen (n ∷ ns) = ground (arith, unseen-less c seen ns)

-- Seeing a new name of the table leaves fewer.
unseen-cons :
    (c : String) (seen names : List String)
    → contains names c ≡ true
    → contains seen c ≡ false
    → suc (unseen (c ∷ seen) names) ≤ unseen seen names
unfolding contains
unseen-cons c seen [] h k = cc
unseen-cons c seen (n ∷ ns) h k = ground (
  arith,
  unseen-cons c seen ns,
  unseen-less c seen ns,
  string_eq.beq_iff n c,
  string_eq.beq_iff c n,
)

-- What `follow` may return: a name that is no alias, or the report of a cycle.
abbrev pub Ends : Dict String String → Outcome String → Type 0
Ends aliases (done name) = lookup name aliases ≡ none
Ends aliases (raised e) = e ≡ RegistryError.alias_cycle

follow_from-Ends :
    (turns : ℕ) (aliases : Dict String String) (seen : List String) (cursor : String)
    → suc (unseen seen (keys aliases)) ≤ turns
    → Ends aliases (follow_from turns aliases seen cursor)
unfolding follow_from
follow_from-Ends zero aliases seen cursor h = absurd (omega (arith, h))
follow_from-Ends (suc turns) aliases seen cursor h =
    split_option (Ends aliases) (lookup cursor aliases) (λ e. e)
      λ target e.
        split_if (Ends aliases) (contains seen cursor) (λ _. refl)
          λ new.
            follow_from-Ends turns aliases (cursor ∷ seen) target
              (omega (arith, h, unseen-cons cursor seen (keys aliases) (alias_there e) new))
  where
    alias_there :
        {target : String}
        → lookup cursor aliases ≡ some target
        → contains (keys aliases) cursor ≡ true
    alias_there e = rw (contains-lookup cursor aliases, e) refl

-- `follow` ends for every table of aliases and every name: with a name that is no alias, or with the
-- error that reports a cycle.
pub follow-Ends :
    (aliases : Dict String String) (name : String) → Ends aliases (follow aliases name)
unfolding follow
follow-Ends aliases name =
    follow_from-Ends (suc (length aliases)) aliases [] name
      (omega (arith, unseen-length [] aliases))
