-- ===== src/Models/Catalog/Sets.antt =====
-- What the sets of IDs that internal/models/catalog.go builds contain.
use codex_model_tester.Base.{
  ◌≡◌, refl, sym, subst, ◌∙◌, Bool-cases, inl, inr, true, none, some, List, [], ◌∷◌, arith, Str,
  Dict, lookup, insert, lookup-insert, str_eq, str_eq_iff,
}
use codex_model_tester.Models.Entry.{Entry}
use codex_model_tester.Models.Catalog.{
  StrSet, has, insert_ids, copy_set, supported_ids, some_unrefreshed,
}

-- A set that is part of another stays so when both get the same ID.
has-insert :
    (id k : Str) (s t : StrSet)
    → (has id s ≡ true → has id t ≡ true)
    → has id (insert k tt s) ≡ true
    → has id (insert k tt t) ≡ true
has-insert id k s t f h = ground (arith, lookup-insert k id tt s, lookup-insert k id tt t, f)

pub has-insert_ids :
    (id : Str) (es : List Entry) (s t : StrSet)
    → (has id s ≡ true → has id t ≡ true)
    → has id (insert_ids es s) ≡ true
    → has id (insert_ids es t) ≡ true
unfolding insert_ids
has-insert_ids id [] s t f h = f h
has-insert_ids id (e ∷ es) s t f h =
    has-insert_ids id es (insert e.id tt s) (insert e.id tt t) (has-insert id e.id s t f) h

pub insert_ids-has :
    (id : Str) (es : List Entry) (s : StrSet) → has id s ≡ true → has id (insert_ids es s) ≡ true
unfolding insert_ids
insert_ids-has id [] s h = h
insert_ids-has id (e ∷ es) s h =
    insert_ids-has id es (insert e.id tt s) (ground (arith, lookup-insert e.id id tt s))

copy_set-left : (id : Str) (s t : StrSet) → has id s ≡ true → has id (copy_set s t) ≡ true
unfolding copy_set
copy_set-left id s [] h = h
copy_set-left id s ((k, u) ∷ t) h =
    copy_set-left id (insert k u s) t (ground (arith, lookup-insert k id u s))

copy_set-right : (id : Str) (s t : StrSet) → has id t ≡ true → has id (copy_set s t) ≡ true
unfolding copy_set lookup
copy_set-right id s [] h = cc
copy_set-right id s ((k, u) ∷ t) h = ground (
  arith,
  str_eq_iff k id,
  copy_set-left id (insert k u s) t,
  lookup-insert k id u s,
  copy_set-right id (insert k u s) t,
)

supported_ids-has :
    (id : Str) (m : Dict StrSet) (s : StrSet) → has id s ≡ true → has id (supported_ids m s) ≡ true
unfolding supported_ids
supported_ids-has id [] s h = h
supported_ids-has id ((k, t) ∷ m) s h =
    supported_ids-has id m (copy_set s t) (copy_set-left id s t h)

same_some : (a b : StrSet) → some a ≡ some b → a ≡ b
same_some a b e = cc

-- What one route supports, some route supports.
pub has-supported_ids :
    (id key : Str) (set : StrSet) (m : Dict StrSet) (s : StrSet)
    → lookup key m ≡ some set
    → has id set ≡ true
    → has id (supported_ids m s) ≡ true
unfolding supported_ids lookup
has-supported_ids id key set [] s e h = cc
has-supported_ids id key set ((k, t) ∷ m) s e h =
    let later = has-supported_ids id key set m (copy_set s t) in
    let here =
      λ (w : has id t ≡ true). supported_ids-has id m (copy_set s t) (copy_set-right id s t w) in
    elim (Bool-cases (str_eq k key)) [
      | inl q ↦ here (subst (λ x. has id x ≡ true) (same_some set t (sym e ∙ rw q refl)) h)
      | inr q ↦ later (rw q at e) h
    ]

-- A known route that no models were applied to is one that is not refreshed.
pub some_unrefreshed-has :
    (key : Str) (support : Dict StrSet) (routes : StrSet)
    → lookup key support ≡ none
    → has key routes ≡ true
    → some_unrefreshed support routes ≡ true
unfolding some_unrefreshed lookup
some_unrefreshed-has key support [] e h = cc
some_unrefreshed-has key support ((k, u) ∷ routes) e h =
    ground (arith, str_eq_iff k key, some_unrefreshed-has key support routes e)
