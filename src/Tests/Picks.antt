-- ===== src/Tests/Picks.antt =====
-- Runs of the theorems on the scheduler and the ready index.
use keziah.Base.{
  ◌≡◌, refl, inl, false, none, some, List, [], ◌∷◌, In, contains, lookup, insert, erase, keys,
  string_eq, arith,
}
use keziah.Types.{Candidate, scheduling_classes}
use keziah.Scheduler.{
  select, job_above, is_empty, classes_above, max_of, min_of, effective_weight, accrue, score,
  max_by, class_index,
}
use keziah.Scheduler.Invert.{text_lt, invert_codes, text_lt-invert_codes}
use keziah.Scheduler.Winner.{select-best, select-none}
use keziah.Ready.{add, heads, empty_index}
use keziah.Ready.Heaps.{IndexOk, add-IndexOk}
use keziah.Ready.Heads.{heads-is_empty}
use keziah.Tests.Data.{whole, whole-IsOrdered, weights, fresh_picker, candidate_of}

abbrev two : List Candidate
two = candidate_of "a1" 10 ∷ candidate_of "a2" 5 ∷ []

-- The older of two jobs wins.
older_wins : (select whole weights fresh_picker "mock" two 20).0 ≡ some (candidate_of "a2" 5)
unfolding select effective_weight accrue score max_by classes_above max_of min_of lookup class_index
older_wins = refl

select-best_example :
    In (candidate_of "a2" 5) two
    × (job_above whole weights 20 [] (candidate_of "a1" 10) (candidate_of "a2" 5) ≡ false)
unfolding lookup
select-best_example =
    select-best whole weights 20 "mock" fresh_picker whole-IsOrdered two (candidate_of "a2" 5)
      (candidate_of "a1" 10) older_wins (inl refl) refl

abbrev odd : Candidate
odd = record (candidate_of "a3" 7) { scheduling_class = "urgent" }

odd_loses : (select whole weights fresh_picker "mock" (odd ∷ []) 20).0 ≡ none
unfolding select
odd_loses = refl

select-none_example : contains scheduling_classes "urgent" ≡ false
select-none_example =
    select-none whole weights 20 "mock" fresh_picker (odd ∷ []) odd_loses odd (inl refl)

text_lt-invert_codes_example :
    text_lt (invert_codes (97 ∷ 98 ∷ [])) (invert_codes (97 ∷ 99 ∷ []))
    ≡ text_lt (97 ∷ 99 ∷ []) (97 ∷ 98 ∷ [])
text_lt-invert_codes_example =
    text_lt-invert_codes (97 ∷ 98 ∷ []) (97 ∷ 99 ∷ []) refl (omega arith, (omega arith, tt))
      (omega arith, (omega arith, tt))

empty-IndexOk : IndexOk empty_index
unfolding lookup keys
empty-IndexOk = record { lanes = tt; hint = λ id. tt }

live_there :
    lookup "a1" (add (candidate_of "a1" 10) empty_index).live ≡ some ("mock", ("normal", "ann"))
unfolding add lookup insert erase
live_there = refl

heads-is_empty_example : is_empty (heads "mock" (add (candidate_of "a1" 10) empty_index)).1 ≡ false
heads-is_empty_example =
    heads-is_empty "mock" "a1" ("mock", ("normal", "ann")) (add (candidate_of "a1" 10) empty_index)
      (add-IndexOk (candidate_of "a1" 10) empty_index empty-IndexOk) live_there refl
