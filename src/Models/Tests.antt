-- ===== src/Models/Tests.antt =====
-- The catalog of internal/models at concrete data.
use codex_model_tester.Base.{
  List, map, All, insert, ◌≡◌, ◌↔◌, refl, true, false, not, ◌&&◌, [], ◌∷◌, Str, bytes, In, inl, inr,
  trim_space, is_empty, lookup, str_eq,
}
use codex_model_tester.Accounts.Samples.{first_account}
use codex_model_tester.Models.Entry.{Entry, bootstrap_entry, bootstrap_entries}
use codex_model_tester.Models.Catalog.{
  new_catalog, apply_route_models, supports_record, supports_record_locked,
  resolve_default_for_record, routing_key, rebuild_visible, show_ids, supported_ids, insert_ids,
  insert_entries,
}
use codex_model_tester.Models.Catalog.Calls.{applied, run, supports_record-run}
use codex_model_tester.Models.Catalog.Applied.{IsModel, apply_route_models-supports}
use codex_model_tester.Models.Normalize.{
  BackendReasoningEffort, BackendModelEntry, normalize_backend_entries,
}
use codex_model_tester.Models.Normalize.Distinct.{
  IsDistinct, HasDistinct, normalize_backend_entries-IsDistinct,
}
use codex_model_tester.Models.Catalog.Default.{resolve_default-supported}

abbrev small_model : Entry
small_model = record {
  id = bytes " small ";
  display_name = bytes "Small";
  description = [];
  context_window = 1000;
  max_context_window = 1000;
  is_default = false;
  default_reasoning_effort = bytes "low";
  supported_reasoning_efforts = [];
}

-- The key of the route of the account "a".
abbrev route : Str
route = bytes "acct:a"

supports_record-run_example :
    supports_record first_account
      (bytes "small")
      (run (applied route (small_model ∷ []) ∷ []) (new_catalog bootstrap_entries))
    ≡ (not (is_empty (trim_space (bytes "small")))
        && supports_record_locked first_account
            (trim_space (bytes "small"))
            (run (applied route (small_model ∷ []) ∷ []) (new_catalog bootstrap_entries)))
supports_record-run_example =
    supports_record-run bootstrap_entries (applied route (small_model ∷ []) ∷ []) first_account
      (bytes "small")

apply_route_models-supports_example :
    (supports_record_locked first_account
        (bytes "small")
        (apply_route_models route (small_model ∷ []) (new_catalog bootstrap_entries))
      ≡ true)
    ↔ ((e : Entry) × In e (small_model ∷ []) × IsModel (bytes "small") e)
unfolding trim_space routing_key
apply_route_models-supports_example =
    apply_route_models-supports first_account (bytes "small") route (small_model ∷ [])
      (new_catalog bootstrap_entries) refl refl

abbrev bootstrap_model : Entry
bootstrap_model = bootstrap_entry (bytes "gpt-5.5") false (bytes "medium") 272000 []

resolve_default-supported_example :
    supports_record_locked first_account
      (resolve_default_for_record first_account
        (bytes "unknown")
        (new_catalog (bootstrap_model ∷ [])))
      (new_catalog (bootstrap_model ∷ []))
    ≡ true
unfolding new_catalog rebuild_visible show_ids supported_ids insert_ids insert_entries
    supports_record_locked lookup insert str_eq bootstrap_entry
resolve_default-supported_example =
    resolve_default-supported first_account (bytes "unknown") bootstrap_model
      (new_catalog (bootstrap_model ∷ [])) (inr (inl refl)) refl

abbrev backend_effort : Str → BackendReasoningEffort
backend_effort name = record {
  reasoning_effort = name;
  reasoning_effort_alt = [];
  effort_text = [];
  description = [];
}

abbrev backend_model : Str → BackendModelEntry
backend_model slug = record {
  slug = slug;
  id = [];
  name = [];
  display_name = [];
  description = [];
  context_window = 1000;
  max_context_window = 1000;
  is_default = false;
  default_reasoning_effort = [];
  default_reasoning_level = [];
  supported_reasoning_efforts = backend_effort (bytes "low") ∷ backend_effort (bytes " low") ∷ [];
  supported_reasoning_levels = [];
}

-- Two answers of the backend for one model, the second with a repeated effort.
abbrev backend_models : List BackendModelEntry
backend_models = backend_model (bytes "m") ∷ backend_model (bytes " m ") ∷ []

normalize_backend_entries-IsDistinct_example :
    IsDistinct (map (λ e. e.id) (normalize_backend_entries backend_models))
    × All HasDistinct (normalize_backend_entries backend_models)
normalize_backend_entries-IsDistinct_example = normalize_backend_entries-IsDistinct backend_models
