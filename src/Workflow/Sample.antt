-- ===== src/Workflow/Sample.antt =====
-- A definition of two steps, for the tests.
use auto_dev_os.Base.{String, refl, none, some, true, List, [], ◌∷◌}
use auto_dev_os.Base.Counts.{Rearranges}
use auto_dev_os.Workflow.Schema.{Value, go_string, field_string}
use auto_dev_os.Workflow.Step.{StepDefinition, returned}

abbrev pub as_listed : List String → List String
as_listed l = l

pub as_listed-Rearranges : Rearranges as_listed
as_listed-Rearranges l k = refl

abbrev pub plan_text : Value
plan_text = record { kind = go_string; content = "plan" }

abbrev pub plan : StepDefinition
plan = record {
  ident = "plan";
  name = "Plan";
  depends_on = [];
  input_schema = record { fields = [] };
  output_schema = record {
    fields = ("text", record { type = field_string; required = true }) ∷ [];
  };
  run = some (λ seen context. returned (some (("text", plan_text) ∷ [])));
}

abbrev pub code : StepDefinition
code = record {
  ident = "code";
  name = "Code";
  depends_on = "plan" ∷ [];
  input_schema = record { fields = [] };
  output_schema = record { fields = [] };
  run = some (λ seen context. returned none);
}
