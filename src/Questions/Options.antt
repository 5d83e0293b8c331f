-- ===== src/Questions/Options.antt =====
-- The options of a choice that `normalise_questions` of src/keziah/types.py accepts.
use keziah.Base.{suc, ◌+◌, ◌≤◌, ◌≡◌, String, Option, none, some, arith}
use keziah.Types.{Value, Fields, Items, end, field, no_items, item, null, dict, list}
use keziah.Questions.{
  good, field_count, item_count, set_field, options_map, choice_options, choice_criteria,
}

set_field-grows :
    (key : String) (value : Value) (m : Fields)
    → (1 ≤ field_count (set_field key value m))
      × (field_count m ≤ field_count (set_field key value m))
      × (field_count (set_field key value m) ≤ suc (field_count m))
unfolding set_field
set_field-grows key value end = (omega arith, omega arith, omega arith)
set_field-grows key value (field k v rest) = ground (arith, set_field-grows key value rest)

module _ (text_of : Value → String) where
  options_map-grows :
      (options : Items) (m : Fields)
      → (field_count m ≤ field_count (options_map text_of options m))
        × (field_count (options_map text_of options m) ≤ field_count m + item_count options)
  unfolding options_map
  options_map-grows no_items m = (omega arith, omega arith)
  options_map-grows (item v rest) m =
      let next = set_field (text_of v) null m in
      ground (arith, options_map-grows rest next, set_field-grows (text_of v) null m)

  choice_options-bounds :
      (options : Option Value) (m : Fields)
      → choice_options text_of options ≡ good m
      → (1 ≤ field_count m) × (field_count m ≤ 255)
  unfolding choice_options options_map
  choice_options-bounds none m h = cc
  choice_options-bounds (some null) m h = cc
  choice_options-bounds (some (list no_items)) m h = cc
  choice_options-bounds (some (list (item v rest))) m h = ground (
    arith,
    h,
    options_map-grows rest (set_field (text_of v) null end),
    set_field-grows (text_of v) null end,
  )
  choice_options-bounds (some (dict fields)) m h = cc
  choice_options-bounds (some _) m h = cc

  -- A choice that is accepted has at least 1 and at most 255 options, whether they come as criteria
  -- or as a list, in which options of one text count once.
  pub choice_criteria-bounds :
      (criteria options : Option Value) (m : Fields)
      → choice_criteria text_of criteria options ≡ good m
      → (1 ≤ field_count m) × (field_count m ≤ 255)
  unfolding choice_criteria
  choice_criteria-bounds (some (dict (field k v rest))) options m h = ground (arith, h)
  choice_criteria-bounds none options m h = choice_options-bounds options m h
  choice_criteria-bounds (some _) options m h = choice_options-bounds options m h
