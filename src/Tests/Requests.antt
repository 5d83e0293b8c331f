-- ===== src/Tests/Requests.antt =====
-- Runs of the theorems on questions and adapters.
use keziah.Base.{
  ℕ, ◌+◌, ◌≤◌, ◌≡◌, ◌⊎◌, refl, String, true, false, not, Option, none, some, [], ◌∷◌, leb, lookup,
  keys, contains, ◌==◌, string_eq,
}
use keziah.Types.{Value, Fields, end, field, no_items, item, null, str, list}
use keziah.Adapters.{ModelHealth}
use keziah.Metrics.{Histogram, observe, counted, observe-counted}
use keziah.Registry.{Settings, follow, follow_from, is_group}
use keziah.Service.Targets.{execution_target, runs, regroup_of, healthy, execution_target-runs}
use keziah.Tests.Data.{first_job}
use keziah.Questions.{choice_criteria, choice_options, options_map, set_field, field_count, good}
use keziah.Questions.Options.{choice_criteria-bounds}

abbrev plain_text : Value → String
plain_text (str s) = s
plain_text _ = "?"

abbrev yes_no : Value
yes_no = list (item (str "yes") (item (str "no") (item (str "yes") no_items)))

abbrev two_options : Fields
two_options = field "yes" null (field "no" null end)

accepted_options : choice_criteria plain_text none (some yes_no) ≡ good two_options
unfolding choice_criteria choice_options options_map set_field
accepted_options = refl

choice_criteria-bounds_example : (1 ≤ field_count two_options) × (field_count two_options ≤ 255)
choice_criteria-bounds_example =
    choice_criteria-bounds plain_text none (some yes_no) two_options accepted_options

abbrev one_bucket : Histogram ℕ leb ◌+◌
one_bucket = record { buckets = (5, 0) ∷ []; inf = 0; total = 0; sum = 0 }

nothing_counted : counted ℕ leb ◌+◌ one_bucket.buckets + 0 ≡ 0
unfolding counted
nothing_counted = refl

observe-counted_example :
    counted ℕ leb ◌+◌ (observe ℕ leb ◌+◌ 7 one_bucket).buckets
      + (observe ℕ leb ◌+◌ 7 one_bucket).inf
    ≡ (observe ℕ leb ◌+◌ 7 one_bucket).total
observe-counted_example = observe-counted ℕ leb ◌+◌ 7 one_bucket nothing_counted

abbrev sick : String → ModelHealth
sick model = record { ok = not (model == "mock"); permanent = false; detail = ""; version = none }

abbrev one_model : Settings
one_model = record {
  models = ("mock", record { adapter = "mock"; enabled = true; endpoint = none }) ∷ [];
  aliases = [];
  model_groups = [];
}

-- A probe that failed for a moment does not move a job that names its model.
stays : execution_target sick one_model first_job ≡ runs "mock" none
unfolding execution_target lookup is_group follow follow_from regroup_of keys contains
stays = refl

abbrev answered_by : String
answered_by = "mock"

abbrev no_fallback : Option Fields
no_fallback = none

execution_target-runs_example :
    ((answered_by ≡ first_job.resolved_model) × (no_fallback ≡ first_job.fallback))
    ⊎ (healthy sick one_model first_job "mock" ≡ true)
execution_target-runs_example = execution_target-runs sick one_model first_job "mock" none stays
