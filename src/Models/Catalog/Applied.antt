-- ===== src/Models/Catalog/Applied.antt =====
-- What an account supports once models were applied to its route: internal/models/catalog.go.
use codex_model_tester.Base.{
  ◌≡◌, refl, sym, subst, ap, ◌∙◌, Bool-cases, ◌⊎◌, inl, inr, true, false, List, [], ◌∷◌, map, arith,
  if◌then◌else◌, Str, Dict, lookup, insert, trim_space, is_empty, ◌↔◌, In, str_eq, str_eq_iff,
  lookup-insert,
}
use codex_model_tester.Accounts.Types.{Record}
use codex_model_tester.Models.Entry.{Entry}
use codex_model_tester.Models.Catalog.{
  StrSet, Catalog, has, insert_entries, named, supports_record_locked, supports_key,
  apply_route_models, make_set, make_set_from, routing_key, is_nil,
}
use codex_model_tester.Models.Catalog.Support.{rebuild_visible-supports}

-- An entry whose ID is not blank and has this ID when the spaces around it are cut.
abbrev pub IsModel : Str → Entry → Type 0
IsModel id e = (is_empty (trim_space e.id) ≡ false) × (trim_space e.id ≡ id)

-- The set that `makeSet` builds of the named entries' IDs.
unfoldable pub ids_from : List Entry → StrSet → StrSet
unfolding make_set_from named
ids_from es s = make_set_from (map (λ e. e.id) (named es)) s

named-cons :
    (e : Entry) (es : List Entry)
    → is_empty (trim_space e.id) ≡ false
    → named (e ∷ es) ≡ e ∷ named es
unfolding named
named-cons e es h = rw h refl

ids_from-cons :
    (e : Entry) (es : List Entry) (s : StrSet)
    → ids_from (e ∷ es) s
      ≡ ids_from es (if is_empty (trim_space e.id) then s else insert (trim_space e.id) tt s)
unfolding ids_from
ids_from-cons e es s = elim (Bool-cases (is_empty (trim_space e.id))) [
  | inl h ↦ rw (h, ids_from, named) refl
  | inr h ↦ ap (λ (l : List Entry). make_set_from (map (λ e. e.id) l) s) (named-cons e es h)
]

-- What is in the set once the entry is added.
has-added :
    (id : Str) (e : Entry) (es : List Entry) (s : StrSet)
    → has id (if is_empty (trim_space e.id) then s else insert (trim_space e.id) tt s) ≡ true
    → (has id s ≡ true) ⊎ ((x : Entry) × In x (e ∷ es) × IsModel id x)
has-added id e es s h = elim (Bool-cases (str_eq (trim_space e.id) id)) [
  | inl q ↦ elim (Bool-cases (is_empty (trim_space e.id))) [
    | inl b ↦ inl (rw b at h)
    | inr b ↦ inr (e, inl refl, (b, ground (arith, str_eq_iff (trim_space e.id) id)))
  ]
  | inr q ↦ inl (ground (arith, lookup-insert (trim_space e.id) id tt s))
]

has-ids_from :
    (id : Str) (es : List Entry) (s : StrSet)
    → has id (ids_from es s) ≡ true
    → (has id s ≡ true) ⊎ ((e : Entry) × In e es × IsModel id e)
has-ids_from id [] s h = inl (unfold ids_from in h)
has-ids_from id (e ∷ es) s h =
    elim (has-ids_from id es
      (if is_empty (trim_space e.id) then s else insert (trim_space e.id) tt s)
      (rw (ids_from-cons e es s) at h)) [
        | inl k ↦ has-added id e es s k
        | inr (x, i, m) ↦ inr (x, inr i, m)
      ]

set-ids_from :
    (id : Str) (es : List Entry) (s : StrSet) → has id s ≡ true → has id (ids_from es s) ≡ true
set-ids_from id [] s h = unfold ids_from in h
set-ids_from id (e ∷ es) s h = rw (ids_from-cons e es s) (
    set-ids_from id es (if is_empty (trim_space e.id) then s else insert (trim_space e.id) tt s)
      (ground (arith, lookup-insert (trim_space e.id) id tt s)))

entry-ids_from :
    (id : Str) (x : Entry) (es : List Entry) (s : StrSet)
    → In x es
    → IsModel id x
    → has id (ids_from es s) ≡ true
entry-ids_from id x [] s i m = absurd i
entry-ids_from id x (e ∷ es) s (inl w) m =
    let n = subst (IsModel id) (sym w) m in
    rw (ids_from-cons e es s) (
      set-ids_from id es (if is_empty (trim_space e.id) then s else insert (trim_space e.id) tt s)
        (ground (arith, lookup-insert (trim_space e.id) id tt s, str_eq_iff (trim_space e.id) id)))
entry-ids_from id x (e ∷ es) s (inr i) m = rw (ids_from-cons e es s) (
    entry-ids_from id x es (if is_empty (trim_space e.id) then s else insert (trim_space e.id) tt s)
      i m)

from_nothing :
    (id : Str) (es : List Entry)
    → (has id [] ≡ true) ⊎ ((e : Entry) × In e es × IsModel id e)
    → (e : Entry) × In e es × IsModel id e
unfolding lookup
from_nothing id es (inl h) = cc
from_nothing id es (inr h) = h

make_set-named :
    (id : Str) (es : List Entry)
    → (has id (make_set (map (λ e. e.id) (named es))) ≡ true)
      ↔ ((e : Entry) × In e es × IsModel id e)
unfolding make_set ids_from lookup
make_set-named id es =
    (λ h. from_nothing id es (has-ids_from id es [] h), λ (e, i, m). entry-ids_from id e es [] i m)

insert-some : (key : Str) (set : StrSet) (m : Dict StrSet) → is_nil (insert key set m) ≡ false
unfolding insert
insert-some key set [] = refl
insert-some key set ((k, t) ∷ m) = ground arith

-- The record's route has its entry right after the call.
applied-supports :
    (r : Record) (id key : Str) (set : StrSet) (c : Catalog)
    → routing_key r ≡ key
    → supports_record_locked r id (record c { support = insert key set c.support }) ≡ has id set
unfolding supports_record_locked supports_key
applied-supports r id key set c h =
    let e = lookup-insert key (routing_key r) set c.support in
    let n = insert-some key set c.support in ground (arith, str_eq_iff key (routing_key r))

applied_lem :
    (r : Record) (id key : Str) (es : List Entry) (c : Catalog)
    → is_empty (trim_space key) ≡ false
    → routing_key r ≡ trim_space key
    → supports_record_locked r id (apply_route_models key es c)
      ≡ has id (make_set (map (λ e. e.id) (named es)))
unfolding apply_route_models
applied_lem r id key es c b k =
    let d = record c {
      known_routes = insert (trim_space key) tt c.known_routes;
      entries_by_id = insert_entries (named es) c.entries_by_id;
    } in
    let set = make_set (map (λ e. e.id) (named es)) in
    rw (b, apply_route_models)
      (rebuild_visible-supports r id (record d { support = insert (trim_space key) set c.support })
        ∙ applied-supports r id (trim_space key) set d k)

-- After models are applied to a route whose key is not blank, the account of that route
-- supports exactly the IDs that some applied entry has when it is trimmed, and that are not
-- blank.
pub apply_route_models-supports :
    (r : Record) (id key : Str) (es : List Entry) (c : Catalog)
    → is_empty (trim_space key) ≡ false
    → routing_key r ≡ trim_space key
    → (supports_record_locked r id (apply_route_models key es c) ≡ true)
      ↔ ((e : Entry) × In e es × IsModel id e)
apply_route_models-supports r id key es c b k =
    rw (applied_lem r id key es c b k) (make_set-named id es)
