-- ===== src/Models/Entry.antt =====
-- internal/models/entry.go and bootstrap.go: the description of a model.
use codex_model_tester.Base.{ℕ, Bool, true, false, List, [], ◌∷◌, ◌++◌, min, Str, bytes}

pub record ReasoningEffort : Type 0 where
  pub reasoning_effort : Str
  pub description : Str

-- Windows are Go ints where they are not negative; the code only copies them.
pub record Entry : Type 0 where
  pub id : Str
  pub display_name : Str
  pub description : Str
  pub context_window : ℕ
  pub max_context_window : ℕ
  pub is_default : Bool
  pub default_reasoning_effort : Str
  pub supported_reasoning_efforts : List ReasoningEffort

abbrev pub effort : Str → Str → ReasoningEffort
effort e d = record { reasoning_effort = e; description = d }

abbrev pub bootstrap_reasoning_efforts : List ReasoningEffort
bootstrap_reasoning_efforts =
    effort (bytes "low") (bytes "Fastest responses")
    ∷ effort (bytes "medium") (bytes "Balanced")
    ∷ effort (bytes "high") (bytes "Greater reasoning depth")
    ∷ effort (bytes "xhigh") (bytes "Extra high reasoning depth")
    ∷ []

unfoldable pub bootstrap_entry : Str → Bool → Str → ℕ → List ReasoningEffort → Entry
bootstrap_entry id is_default default_effort max_window additional = record {
  id = id;
  display_name = id;
  description = bytes "Bootstrap fallback model catalog entry";
  context_window = min 272000 max_window;
  max_context_window = max_window;
  is_default = is_default;
  default_reasoning_effort = default_effort;
  supported_reasoning_efforts = bootstrap_reasoning_efforts ++ additional;
}

abbrev pub max_effort : ReasoningEffort
max_effort = effort (bytes "max") (bytes "Maximum reasoning depth for the hardest problems")

abbrev pub ultra_effort : ReasoningEffort
ultra_effort = effort (bytes "ultra") (bytes "Maximum reasoning with automatic task delegation")

-- `bootstrapEntries`
unfoldable pub bootstrap_entries : List Entry
unfolding bootstrap_entry
bootstrap_entries =
    bootstrap_entry (bytes "gpt-6-astra") true (bytes "low") 872000 (max_effort ∷ ultra_effort ∷ [])
    ∷ bootstrap_entry (bytes "gpt-5.6-sol") false (bytes "low") 872000
        (max_effort ∷ ultra_effort ∷ [])
    ∷ bootstrap_entry (bytes "gpt-5.6-terra") false (bytes "medium") 872000
        (max_effort ∷ ultra_effort ∷ [])
    ∷ bootstrap_entry (bytes "gpt-5.6-luna") false (bytes "medium") 872000 (max_effort ∷ [])
    ∷ bootstrap_entry (bytes "gpt-5.5") false (bytes "medium") 272000 []
    ∷ bootstrap_entry (bytes "gpt-5.3-codex-spark") false (bytes "high") 128000 []
    ∷ []
