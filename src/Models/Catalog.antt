-- ===== src/Models/Catalog.antt =====
-- internal/models/catalog.go: the catalog of models. Its lock makes each method one step, and every
-- copy it makes of an entry equals the entry.

pub mod Support
pub mod Sets
pub mod Calls
pub mod Applied
pub mod Default
use codex_model_tester.Base.{
  ℕ, Bool, true, false, not, ◌&&◌, ◌||◌, Option, none, some, List, [], ◌∷◌, ◌++◌, map,
  if◌then◌else◌, Str, bytes, Dict, is_empty, trim_space, lookup, insert, is_some,
}
use codex_model_tester.Accounts.Types.{Record}
use codex_model_tester.Accounts.Rotation.{str_compare, sort_func}
use codex_model_tester.Models.Entry.{Entry}

-- `map[string]struct{}`
abbrev pub StrSet : Type 0
StrSet = Dict (Unit {0})

abbrev pub has : Str → StrSet → Bool
has k s = is_some (lookup k s)

abbrev pub keys {ℓ} : {V : Type ℓ} → Dict V → List Str
keys d = map (λ e. e.0) d

pub record Catalog : Type 0 where
  pub bootstrap : List Entry
  pub visible : List Entry
  pub bootstrap_ids : StrSet
  pub visible_ids : StrSet
  pub entries_by_id : Dict Entry
  pub support : Dict StrSet
  pub known_routes : StrSet

pub record CacheSnapshot : Type 0 where
  pub models : List Entry
  pub support_ids : Dict (List Str)

-- `for _, entry := range entries { m[entry.ID] = entry }`
unfoldable pub insert_entries : List Entry → Dict Entry → Dict Entry
insert_entries [] m = m
insert_entries (e ∷ es) m = insert_entries es (insert e.id e m)

-- The IDs of the entries, put into a set.
unfoldable pub insert_ids : List Entry → StrSet → StrSet
insert_ids [] s = s
insert_ids (e ∷ es) s = insert_ids es (insert e.id tt s)

-- `maps.Copy(s, t)`
unfoldable pub copy_set : StrSet → StrSet → StrSet
copy_set s [] = s
copy_set s ((k, u) ∷ t) = copy_set (insert k u s) t

-- The IDs that some route supports.
unfoldable pub supported_ids : Dict StrSet → StrSet → StrSet
unfolding copy_set
supported_ids [] s = s
supported_ids ((k, t) ∷ m) s = supported_ids m (copy_set s t)

-- `hasUnrefreshedRoutesLocked`, over the routes that are left.
unfoldable pub some_unrefreshed : Dict StrSet → StrSet → Bool
some_unrefreshed support [] = false
some_unrefreshed support ((k, u) ∷ routes) =
    not (is_some (lookup k support)) || some_unrefreshed support routes

abbrev pub has_unrefreshed_routes : Catalog → Bool
has_unrefreshed_routes c = some_unrefreshed c.support c.known_routes

-- `if _, exists := m[entry.ID]; !exists { m[entry.ID] = entry }`, for each entry.
unfoldable pub add_missing : List Entry → Dict Entry → Dict Entry
add_missing [] m = m
add_missing (e ∷ es) m = add_missing es (if is_some (lookup e.id m) then m else insert e.id e m)

-- The entries of the IDs that have one.
unfoldable pub entries_of : Dict Entry → List Str → List Entry
entries_of m [] = []
entries_of m (id ∷ ids) =
    let rest = entries_of m ids in elim (lookup id m) [ none ↦ rest | some e ↦ e ∷ rest ]

-- The end of `rebuildVisibleLocked`, with the IDs it found.
unfoldable pub show_ids : StrSet → Catalog → Catalog
unfolding insert_entries entries_of
show_ids [] c = record c {
  visible = c.bootstrap;
  visible_ids = c.bootstrap_ids;
  entries_by_id = insert_entries c.bootstrap c.entries_by_id;
}
show_ids (k ∷ ids) c = record c {
  visible = entries_of c.entries_by_id (sort_func str_compare (keys (k ∷ ids)));
  visible_ids = k ∷ ids;
}

unfoldable pub rebuild_visible : Catalog → Catalog
unfolding supported_ids insert_ids add_missing show_ids some_unrefreshed
rebuild_visible c =
    let ids = supported_ids c.support [] in
    if has_unrefreshed_routes c
    then show_ids (insert_ids c.bootstrap ids)
        (record c { entries_by_id = add_missing c.bootstrap c.entries_by_id })
    else show_ids ids c

unfoldable pub new_catalog : List Entry → Catalog
unfolding insert_ids insert_entries rebuild_visible
new_catalog bootstrap = rebuild_visible (record {
  bootstrap = bootstrap;
  visible = [];
  bootstrap_ids = insert_ids bootstrap [];
  visible_ids = [];
  entries_by_id = insert_entries bootstrap [];
  support = [];
  known_routes = [];
})

unfoldable pub has_model : Str → Catalog → Bool
has_model id c =
    is_some (lookup (trim_space id) c.entries_by_id) && has (trim_space id) c.visible_ids

unfoldable pub get : Str → Catalog → Option Entry
get id c =
    if has (trim_space id) c.visible_ids then lookup (trim_space id) c.entries_by_id else none

-- `RoutingKeyForRecord`
unfoldable pub routing_key : Record → Str
routing_key r = bytes "acct:" ++ trim_space r.id

-- `supportsRecordLocked`, with the record's key, where some route is supported.
unfoldable pub supports_key : Str → Str → Option StrSet → Catalog → Bool
supports_key key id none c = has key c.known_routes && has id c.bootstrap_ids
supports_key key id (some set) c = has id set

-- `len(m) == 0`
abbrev pub is_nil {ℓ} : {V : Type ℓ} → Dict V → Bool
is_nil [] = true
is_nil (e ∷ m) = false

unfoldable pub supports_record_locked : Record → Str → Catalog → Bool
unfolding supports_key routing_key
supports_record_locked r id c =
    if is_nil c.support
    then has id c.bootstrap_ids
    else supports_key (routing_key r) id (lookup (routing_key r) c.support) c

unfoldable pub supports_record : Record → Str → Catalog → Bool
unfolding supports_record_locked
supports_record r id c =
    not (is_empty (trim_space id))
    && has (trim_space id) c.visible_ids
    && supports_record_locked r (trim_space id) c

-- The first entry that passes the test and that the record supports.
unfoldable pub first_supported : Record → Catalog → (Entry → Bool) → List Entry → Option Str
unfolding supports_record_locked
first_supported r c test [] = none
first_supported r c test (e ∷ es) =
    let rest = first_supported r c test es in
    if test e && supports_record_locked r e.id c then some e.id else rest

abbrev pub or_else : Option Str → Option Str → Option Str
or_else none b = b
or_else (some a) b = some a

abbrev pub get_or : Str → Option Str → Str
get_or d none = d
get_or d (some a) = a

unfoldable pub resolve_default_locked : Record → Str → Catalog → Str
unfolding first_supported
resolve_default_locked r configured c =
    if not (is_empty configured) && supports_record_locked r configured c
    then configured
    else get_or configured (
        or_else (first_supported r c (λ e. e.is_default) c.visible) (
          or_else (first_supported r c (λ e. true) c.visible)
            (first_supported r c (λ e. true) c.bootstrap)))

unfoldable pub resolve_default_for_record : Record → Str → Catalog → Str
unfolding resolve_default_locked
resolve_default_for_record r configured c = resolve_default_locked r (trim_space configured) c

-- The entries whose ID is not blank.
unfoldable pub named : List Entry → List Entry
named [] = []
named (e ∷ es) = let rest = named es in if is_empty (trim_space e.id) then rest else e ∷ rest

-- `makeSet`, over the IDs that are left.
unfoldable pub make_set_from : List Str → StrSet → StrSet
make_set_from [] s = s
make_set_from (id ∷ ids) s =
    make_set_from ids (if is_empty (trim_space id) then s else insert (trim_space id) tt s)

unfoldable pub make_set : List Str → StrSet
unfolding make_set_from
make_set ids = make_set_from ids []

-- The loop of `LoadCache` over the snapshot's routes.
unfoldable pub load_routes : Dict (List Str) → Catalog → Catalog
unfolding make_set
load_routes [] c = c
load_routes ((key, ids) ∷ rest) c = load_routes rest (record c {
  known_routes = insert key tt c.known_routes;
  support = insert key (make_set ids) c.support;
})

unfoldable pub load_cache : CacheSnapshot → Catalog → Catalog
unfolding named insert_entries load_routes rebuild_visible
load_cache s c = rebuild_visible (
    load_routes s.support_ids (record c {
      entries_by_id = insert_entries (named s.models) c.entries_by_id;
      support = [];
      known_routes = [];
    }))

unfoldable pub register_route : Str → Catalog → Catalog
unfolding rebuild_visible
register_route key c =
    if is_empty (trim_space key)
    then c
    else rebuild_visible (record c { known_routes = insert (trim_space key) tt c.known_routes })

unfoldable pub apply_route_models : Str → List Entry → Catalog → Catalog
unfolding named insert_entries make_set rebuild_visible
apply_route_models key es c =
    if is_empty (trim_space key)
    then c
    else rebuild_visible (record c {
      known_routes = insert (trim_space key) tt c.known_routes;
      entries_by_id = insert_entries (named es) c.entries_by_id;
      support = insert (trim_space key) (make_set (map (λ e. e.id) (named es))) c.support;
    })

unfoldable pub snapshot : Catalog → CacheSnapshot
snapshot c = record {
  models = c.visible;
  support_ids = map (λ e. (e.0, sort_func str_compare (keys e.1))) c.support;
}
