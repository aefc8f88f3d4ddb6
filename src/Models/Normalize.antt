-- ===== src/Models/Normalize.antt =====
-- internal/models/normalize.go: what the backend says of its models, as entries of the catalog.
pub mod Distinct
use codex_model_tester.Json.{first_non_empty}
use codex_model_tester.Base.{
  ℕ, Bool, true, false, not, ◌||◌, Option, none, some, List, [], ◌∷◌, ◌++◌, if◌then◌else◌, Str,
  bytes, Dict, is_empty, trim_space, lookup, insert, is_some,
}
use codex_model_tester.Models.Entry.{ReasoningEffort, Entry, effort}
use codex_model_tester.Models.Catalog.{StrSet, has, entries_of}

pub record BackendReasoningEffort : Type 0 where
  pub reasoning_effort : Str
  pub reasoning_effort_alt : Str
  pub effort_text : Str
  pub description : Str

pub record BackendModelEntry : Type 0 where
  pub slug : Str
  pub id : Str
  pub name : Str
  pub display_name : Str
  pub description : Str
  pub context_window : ℕ
  pub max_context_window : ℕ
  pub is_default : Bool
  pub default_reasoning_effort : Str
  pub default_reasoning_level : Str
  pub supported_reasoning_efforts : List BackendReasoningEffort
  pub supported_reasoning_levels : List BackendReasoningEffort

-- One round of the loops of `normalizeEfforts`, with the name that the loop reads.
abbrev pub add_effort : Str → Str → List ReasoningEffort → List ReasoningEffort
add_effort name description rest =
    if is_empty (trim_space name)
    then rest
    else effort (trim_space name) (trim_space description) ∷ rest

unfoldable pub listed_efforts : List BackendReasoningEffort → List ReasoningEffort
unfolding first_non_empty
listed_efforts [] = []
listed_efforts (e ∷ es) =
    let rest = listed_efforts es in
    add_effort (first_non_empty (e.reasoning_effort ∷ e.reasoning_effort_alt ∷ e.effort_text ∷ []))
      e.description rest

unfoldable pub listed_levels : List BackendReasoningEffort → List ReasoningEffort
listed_levels [] = []
listed_levels (e ∷ es) = let rest = listed_levels es in add_effort e.effort_text e.description rest

abbrev pub effort_key : ReasoningEffort → Str
effort_key e = trim_space e.reasoning_effort

-- The loop of `dedupeEfforts` over the efforts that are left.
unfoldable pub dedupe_from : StrSet → List ReasoningEffort → List ReasoningEffort
dedupe_from seen [] = []
dedupe_from seen (e ∷ es) =
    let skip = is_empty (effort_key e) || has (effort_key e) seen in
    let rest = dedupe_from (if skip then seen else insert (effort_key e) tt seen) es in
    if skip then rest else e ∷ rest

unfoldable pub dedupe_efforts : List ReasoningEffort → List ReasoningEffort
unfolding dedupe_from
dedupe_efforts es = dedupe_from [] es

abbrev or_medium : List ReasoningEffort → List ReasoningEffort
or_medium [] = effort (bytes "medium") (bytes "Default") ∷ []
or_medium (e ∷ es) = e ∷ es

unfoldable pub normalize_efforts : BackendModelEntry → List ReasoningEffort
unfolding listed_efforts listed_levels dedupe_efforts
normalize_efforts raw = dedupe_efforts (
    or_medium (
      listed_efforts raw.supported_reasoning_efforts
      ++ listed_levels raw.supported_reasoning_levels))

abbrev first_effort : List ReasoningEffort → Str
first_effort [] = []
first_effort (e ∷ es) = e.reasoning_effort

abbrev or_text : Str → Str → Str
or_text [] other = other
or_text (b ∷ s) other = b ∷ s

unfoldable pub normalize_backend_entry : BackendModelEntry → Option Entry
unfolding normalize_efforts first_non_empty
normalize_backend_entry raw =
    let id = trim_space (first_non_empty (raw.slug ∷ raw.id ∷ raw.name ∷ [])) in
    let default =
      trim_space
        (first_non_empty (raw.default_reasoning_effort ∷ raw.default_reasoning_level ∷ [])) in
    if is_empty id
    then none
    else some (record {
      id = id;
      display_name = first_non_empty (trim_space raw.display_name ∷ trim_space raw.name ∷ id ∷ []);
      description = trim_space raw.description;
      context_window = raw.context_window;
      max_context_window = raw.max_context_window;
      is_default = raw.is_default;
      default_reasoning_effort =
          or_text (or_text default (first_effort (normalize_efforts raw))) (bytes "medium");
      supported_reasoning_efforts = normalize_efforts raw;
    })

-- One round of the loop of `NormalizeBackendEntries`: the map and the order so far.
unfoldable pub add_entry : Option Entry → Dict Entry × List Str → Dict Entry × List Str
add_entry none s = s
add_entry (some e) (m, order) =
    (insert e.id e m, if is_some (lookup e.id m) then order else order ++ e.id ∷ [])

unfoldable pub add_entries : List BackendModelEntry → Dict Entry × List Str → Dict Entry × List Str
unfolding normalize_backend_entry add_entry
add_entries [] s = s
add_entries (raw ∷ raws) s = add_entries raws (add_entry (normalize_backend_entry raw) s)

-- Each ID in the order has an entry.
unfoldable pub normalize_backend_entries : List BackendModelEntry → List Entry
unfolding add_entries
normalize_backend_entries raws = let s = add_entries raws ([], []) in entries_of s.0 s.1
