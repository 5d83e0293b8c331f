-- ===== src/Questions.antt =====
-- `normalise_questions` and `validate_state` of src/keziah/types.py, on JSON values. The text that
-- `str` makes of an option is a parameter.
pub mod Options
use keziah.Base.{
  ℕ, suc, String, Bool, true, false, ◌&&◌, not, Option, none, some, List, [], ◌∷◌, ltb, leb,
  if◌then◌else◌, contains, ◌==◌, string_eq,
}
use keziah.Types.{Value, Fields, Items, end, field, no_items, item, null, str, dict, list, get}

pub data QuestionError : Type 0 where
  invalid_request request_too_large unsupported_question : QuestionError

pub data Checked {ℓ} (A : Type ℓ) : Type ℓ where
  good : A → Checked A
  bad : QuestionError → Checked A

abbrev pub field_count : Fields → ℕ
field_count end = 0
field_count (field k v rest) = suc (field_count rest)

abbrev pub item_count : Items → ℕ
item_count no_items = 0
item_count (item v rest) = suc (item_count rest)

-- `item[key] = value` on the fields of an object.
unfoldable pub set_field : String → Value → Fields → Fields
set_field key value end = field key value end
set_field key value (field k v rest) =
    let later = set_field key value rest in if k == key then field k value rest else field k v later

-- `validate_state`: a text, an object or an array.
abbrev pub valid_state : Value → Bool
valid_state (str s) = true
valid_state (dict m) = true
valid_state (list xs) = true
valid_state _ = false

-- `QUESTION_TYPES`.
abbrev pub question_types : List String
question_types = "choice" ∷ "score" ∷ "noul" ∷ []

module _ (text_of : Value → String) where
  -- `{str(option): None for option in options}`.
  unfoldable pub options_map : Items → Fields → Fields
  unfolding set_field
  options_map no_items m = m
  options_map (item v rest) m = options_map rest (set_field (text_of v) null m)

  -- The options of a choice, where its criteria are no object or an empty one.
  unfoldable pub choice_options : Option Value → Checked Fields
  unfolding options_map
  choice_options (some (list (item v rest))) =
      if ltb 255 (item_count (item v rest))
      then bad QuestionError.invalid_request
      else good (options_map (item v rest) end)
  choice_options _ = bad QuestionError.invalid_request

  unfoldable pub choice_criteria : Option Value → Option Value → Checked Fields
  unfolding choice_options
  choice_criteria (some (dict (field k v rest))) options =
      if ltb 255 (field_count (field k v rest))
      then bad QuestionError.invalid_request
      else good (field k v rest)
  choice_criteria _ options = choice_options options

  -- The item of a question, with its criteria if it has some.
  abbrev pub item_of : String → Value → Option Value → Fields
  item_of kind instructions none = field "type" (str kind) (field "instructions" instructions end)
  item_of kind instructions (some criteria) =
      field "type" (str kind) (field "instructions" instructions (field "criteria" criteria end))

  unfoldable pub choice_item : Value → Option Value → Option Value → Checked Fields
  unfolding choice_criteria
  choice_item instructions criteria options = elim (choice_criteria criteria options) [
    | bad e ↦ bad e
    | good found ↦ good (item_of "choice" instructions (some (dict found)))
  ]

  -- The criteria of a score: none, or a list of 2 to 10 levels.
  unfoldable pub score_item : Value → Option Value → Checked Fields
  score_item instructions none = good (item_of "score" instructions none)
  score_item instructions (some null) = good (item_of "score" instructions none)
  score_item instructions (some (list levels)) =
      if leb 2 (item_count levels) && leb (item_count levels) 10
      then good (item_of "score" instructions (some (list levels)))
      else bad QuestionError.invalid_request
  score_item instructions (some _) = bad QuestionError.invalid_request

  unfoldable pub noul_item : Value → Option Value → Checked Fields
  noul_item instructions (some null) = good (item_of "noul" instructions none)
  noul_item instructions criteria = good (item_of "noul" instructions criteria)

  unfoldable pub typed_item : String → Value → Fields → Checked Fields
  unfolding choice_item score_item noul_item
  typed_item kind instructions raw =
      if kind == "choice"
      then choice_item instructions (get "criteria" raw) (get "options" raw)
      else if kind == "score"
      then score_item instructions (get "criteria" raw)
      else noul_item instructions (get "criteria" raw)

  -- The body of the loop on one question.
  unfoldable pub question_item : Value → Checked Fields
  unfolding typed_item
  question_item (dict raw) = elim (get "type" raw) [
    | some (str kind) ↦
        if not (contains question_types kind)
        then bad QuestionError.unsupported_question
        else elim (get "instructions" raw) [
          | none ↦ bad QuestionError.invalid_request
          | some instructions ↦ typed_item kind instructions raw
        ]
    | _ ↦ bad QuestionError.unsupported_question
  ]
  question_item _ = bad QuestionError.invalid_request

  -- The loop over the questions, with what it has normalised.
  unfoldable pub question_items : Fields → Fields → Checked Fields
  unfolding question_item set_field
  question_items end done_ = good done_
  question_items (field key raw rest) done_ = elim (question_item raw) [
    | bad e ↦ bad e
    | good one ↦ question_items rest (set_field key (dict one) done_)
  ]

  unfoldable pub normalise_questions : ℕ → Value → Checked Fields
  unfolding question_items
  normalise_questions max_questions (dict (field key raw rest)) =
      if ltb max_questions (field_count (field key raw rest))
      then bad QuestionError.request_too_large
      else question_items (field key raw rest) end
  normalise_questions max_questions _ = bad QuestionError.invalid_request
