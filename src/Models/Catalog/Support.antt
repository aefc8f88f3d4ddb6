-- ===== src/Models/Catalog/Support.antt =====
-- What an account supports and what internal/models/catalog.go shows.
use codex_model_tester.Base.{
  ◌≡◌, refl, sym, subst, ◌∙◌, Bool-cases, inl, inr, true, Option, none, some, [], ◌∷◌, arith, Str,
  Dict, lookup,
}
use codex_model_tester.Accounts.Types.{Record}
use codex_model_tester.Models.Catalog.{
  StrSet, Catalog, has, insert_ids, supported_ids, show_ids, rebuild_visible, is_nil, routing_key,
  supports_key, supports_record_locked, add_missing, has_unrefreshed_routes,
}
use codex_model_tester.Models.Catalog.Sets.{
  has-insert_ids, insert_ids-has, has-supported_ids, some_unrefreshed-has,
}

-- The bootstrap's IDs are in the set beside it.
abbrev pub IsBooted : Catalog → Type 0
IsBooted c = c.bootstrap_ids ≡ insert_ids c.bootstrap []

show_ids-same :
    (ids : StrSet) (c : Catalog)
    → ((show_ids ids c).support ≡ c.support)
      × ((show_ids ids c).known_routes ≡ c.known_routes)
      × ((show_ids ids c).bootstrap ≡ c.bootstrap)
      × ((show_ids ids c).bootstrap_ids ≡ c.bootstrap_ids)
unfolding show_ids
show_ids-same [] c = (refl, refl, refl, refl)
show_ids-same (k ∷ ids) c = (refl, refl, refl, refl)

show_ids-has :
    (id : Str) (ids : StrSet) (c : Catalog)
    → has id ids ≡ true
    → has id (show_ids ids c).visible_ids ≡ true
unfolding show_ids lookup
show_ids-has id [] c h = cc
show_ids-has id (k ∷ ids) c h = h

rebuild_visible-same :
    (c : Catalog)
    → ((rebuild_visible c).support ≡ c.support)
      × ((rebuild_visible c).known_routes ≡ c.known_routes)
      × ((rebuild_visible c).bootstrap ≡ c.bootstrap)
      × ((rebuild_visible c).bootstrap_ids ≡ c.bootstrap_ids)
rebuild_visible-same c =
    let d = record c { entries_by_id = add_missing c.bootstrap c.entries_by_id } in
    let ids = supported_ids c.support [] in
    let a = show_ids-same (insert_ids c.bootstrap ids) d in
    let b = show_ids-same ids c in unfold rebuild_visible in ground arith

-- What some route supports is shown.
rebuild_visible-has :
    (id : Str) (c : Catalog)
    → has id (supported_ids c.support []) ≡ true
    → has id (rebuild_visible c).visible_ids ≡ true
rebuild_visible-has id c h =
    let d = record c { entries_by_id = add_missing c.bootstrap c.entries_by_id } in
    let ids = supported_ids c.support [] in
    let a = show_ids-has id (insert_ids c.bootstrap ids) d (insert_ids-has id c.bootstrap ids h) in
    let b = show_ids-has id ids c h in unfold rebuild_visible in ground arith

-- While a known route is not refreshed, the bootstrap is shown.
rebuild_visible-boot :
    (id : Str) (c : Catalog)
    → IsBooted c
    → has_unrefreshed_routes c ≡ true
    → has id c.bootstrap_ids ≡ true
    → has id (rebuild_visible c).visible_ids ≡ true
rebuild_visible-boot id c b u h =
    let d = record c { entries_by_id = add_missing c.bootstrap c.entries_by_id } in
    let ids = supported_ids c.support [] in
    let a = show_ids-has id (insert_ids c.bootstrap ids) d (
      has-insert_ids id c.bootstrap [] ids (unfold lookup in λ e. cc)
        (subst (λ s. has id s ≡ true) b h)) in
    unfold rebuild_visible in rw u a

-- With no models applied to any route, the bootstrap is shown.
rebuild_visible-none :
    (id : Str) (c : Catalog)
    → IsBooted c
    → c.support ≡ []
    → has id c.bootstrap_ids ≡ true
    → has id (rebuild_visible c).visible_ids ≡ true
rebuild_visible-none id c b e h = elim (Bool-cases (has_unrefreshed_routes c)) [
  | inl u ↦ rebuild_visible-boot id c b u h
  | inr u ↦ unfold rebuild_visible supported_ids show_ids in rw u (rw e h)
]

-- By the entry that the record's route has.
supports_key-shown :
    (key id : Str) (found : Option StrSet) (c : Catalog)
    → IsBooted c
    → lookup key c.support ≡ found
    → supports_key key id found c ≡ true
    → has id (rebuild_visible c).visible_ids ≡ true
unfolding supports_key
supports_key-shown key id none c b f h =
    let w : (has key c.known_routes ≡ true) × (has id c.bootstrap_ids ≡ true) = ground arith in
    rebuild_visible-boot id c b (some_unrefreshed-has key c.support c.known_routes f w.0) w.1
supports_key-shown key id (some set) c b f h =
    rebuild_visible-has id c (has-supported_ids id key set c.support [] f h)

is_nil-eq : (m : Dict StrSet) → is_nil m ≡ true → m ≡ []
is_nil-eq [] h = refl
is_nil-eq (e ∷ m) h = cc

-- What `supportsRecordLocked` accepts before the visible models are rebuilt, they show afterwards.
supports-shown :
    (r : Record) (id : Str) (c : Catalog)
    → IsBooted c
    → supports_record_locked r id c ≡ true
    → has id (rebuild_visible c).visible_ids ≡ true
unfolding supports_record_locked
supports-shown r id c b h = elim (Bool-cases (is_nil c.support)) [
  | inl e ↦
      rebuild_visible-none id c b (is_nil-eq c.support e) (rw (e, supports_record_locked) at h)
  | inr e ↦
      supports_key-shown (routing_key r) id (lookup (routing_key r) c.support) c b refl
        (rw (e, supports_record_locked) at h)
]

supports_key-same :
    (key id : Str) (found : Option StrSet) (c d : Catalog)
    → c.known_routes ≡ d.known_routes
    → c.bootstrap_ids ≡ d.bootstrap_ids
    → supports_key key id found c ≡ supports_key key id found d
unfolding supports_key
supports_key-same key id none c d k b = rw (k, b) refl
supports_key-same key id (some set) c d k b = refl

-- Rebuilding the visible models changes nothing of what an account supports.
pub rebuild_visible-supports :
    (r : Record) (id : Str) (c : Catalog)
    → supports_record_locked r id (rebuild_visible c) ≡ supports_record_locked r id c
unfolding supports_record_locked
rebuild_visible-supports r id c =
    let (s, k, b, i) = rebuild_visible-same c in
    let e =
      supports_key-same (routing_key r) id (lookup (routing_key r) c.support) (rebuild_visible c) c
        k i in
    ground arith

-- The bootstrap is what it was, and what an account supports is shown.
pub record IsShown (c : Catalog) : Type 0 where
  pub booted : IsBooted c
  pub shown :
      (r : Record) (id : Str) → supports_record_locked r id c ≡ true → has id c.visible_ids ≡ true

pub rebuild_visible-IsShown : (c : Catalog) → IsBooted c → IsShown (rebuild_visible c)
rebuild_visible-IsShown c b =
    let (s, k, t, i) = rebuild_visible-same c in
    record {
      booted = rw (t, i) b;
      shown = λ r id h. supports-shown r id c b (sym (rebuild_visible-supports r id c) ∙ h);
    }
