-- ===== src/Models/Catalog/Calls.antt =====
-- The calls of internal/models/catalog.go in any order.
use codex_model_tester.Base.{
  ◌≡◌, refl, Bool-cases, inl, inr, not, ◌&&◌, List, [], ◌∷◌, map, arith, Str, Dict, insert,
  trim_space, is_empty,
}
use codex_model_tester.Accounts.Types.{Record}
use codex_model_tester.Models.Entry.{Entry}
use codex_model_tester.Models.Catalog.{
  Catalog, CacheSnapshot, insert_ids, insert_entries, named, new_catalog, supports_record_locked,
  supports_record, load_routes, load_cache, register_route, apply_route_models, make_set,
}
use codex_model_tester.Models.Catalog.Support.{IsBooted, IsShown, rebuild_visible-IsShown}

-- A call that changes the catalog.
pub data Call : Type 0 where
  loaded : CacheSnapshot → Call
  registered : Str → Call
  applied : Str → List Entry → Call

unfoldable pub step : Call → Catalog → Catalog
step (loaded s) c = load_cache s c
step (registered key) c = register_route key c
step (applied key es) c = apply_route_models key es c

unfoldable pub run : List Call → Catalog → Catalog
unfolding step
run [] c = c
run (k ∷ ks) c = run ks (step k c)

load_routes-IsBooted : (m : Dict (List Str)) (c : Catalog) → IsBooted c → IsBooted (load_routes m c)
unfolding load_routes
load_routes-IsBooted [] c h = h
load_routes-IsBooted ((key, ids) ∷ m) c h =
    load_routes-IsBooted m
      (record c {
        known_routes = insert key tt c.known_routes;
        support = insert key (make_set ids) c.support;
      })
      h

step-IsShown : (k : Call) (c : Catalog) → IsShown c → IsShown (step k c)
unfolding step
step-IsShown (loaded s) c h =
    unfold load_cache in
    let d = record c {
      entries_by_id = insert_entries (named s.models) c.entries_by_id;
      support = [];
      known_routes = [];
    } in
    rebuild_visible-IsShown (load_routes s.support_ids d)
      (load_routes-IsBooted s.support_ids d h.booted)
step-IsShown (registered key) c h =
    let d = record c { known_routes = insert (trim_space key) tt c.known_routes } in
    let w = rebuild_visible-IsShown d h.booted in
    elim (Bool-cases (is_empty (trim_space key))) [
      | inl e ↦ unfold register_route in rw e h
      | inr e ↦ unfold register_route in rw e w
    ]
step-IsShown (applied key es) c h =
    let d = record c {
      known_routes = insert (trim_space key) tt c.known_routes;
      entries_by_id = insert_entries (named es) c.entries_by_id;
      support = insert (trim_space key) (make_set (map (λ e. e.id) (named es))) c.support;
    } in
    let w = rebuild_visible-IsShown d h.booted in
    elim (Bool-cases (is_empty (trim_space key))) [
      | inl e ↦ unfold apply_route_models in rw e h
      | inr e ↦ unfold apply_route_models in rw e w
    ]

run-IsShown : (ks : List Call) (c : Catalog) → IsShown c → IsShown (run ks c)
unfolding run
run-IsShown [] c h = h
run-IsShown (k ∷ ks) c h = run-IsShown ks (step k c) (step-IsShown k c h)

new_catalog-IsShown : (bootstrap : List Entry) → IsShown (new_catalog bootstrap)
unfolding new_catalog
new_catalog-IsShown bootstrap =
    rebuild_visible-IsShown
      (record {
        bootstrap = bootstrap;
        visible = [];
        bootstrap_ids = insert_ids bootstrap [];
        visible_ids = [];
        entries_by_id = insert_entries bootstrap [];
        support = [];
        known_routes = [];
      })
      refl

pub run-new-IsShown :
    (bootstrap : List Entry) (ks : List Call) → IsShown (run ks (new_catalog bootstrap))
run-new-IsShown bootstrap ks =
    run-IsShown ks (new_catalog bootstrap) (new_catalog-IsShown bootstrap)

-- In a new catalog, and after any calls, every model ID that an account's route supports is
-- among the visible IDs, so that `SupportsRecord` accepts an ID exactly when it is not blank
-- and the route supports it.
pub supports_record-run :
    (bootstrap : List Entry) (ks : List Call) (r : Record) (id : Str)
    → supports_record r id (run ks (new_catalog bootstrap)) ≡ (
        not (is_empty (trim_space id))
        && supports_record_locked r (trim_space id) (run ks (new_catalog bootstrap)))
unfolding supports_record
supports_record-run bootstrap ks r id =
    let c = run ks (new_catalog bootstrap) in
    let s = (run-new-IsShown bootstrap ks).shown r (trim_space id) in
    elim (Bool-cases (supports_record_locked r (trim_space id) c)) [
      | inl e ↦ ground (arith, s e)
      | inr e ↦ ground arith
    ]
