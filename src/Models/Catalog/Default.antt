-- ===== src/Models/Catalog/Default.antt =====
-- The model that internal/models/catalog.go falls back to, and what it knows of a route afterwards.
use codex_model_tester.Base.{
  ◌≡◌, refl, sym, subst, Bool-cases, ◌⊎◌, inl, inr, Bool, true, ◌&&◌, Option, none, some, List, [],
  ◌∷◌, arith, Str, is_some, trim_space, In,
}
use codex_model_tester.Accounts.Types.{Record}
use codex_model_tester.Models.Entry.{Entry}
use codex_model_tester.Models.Catalog.{
  Catalog, supports_record_locked, first_supported, or_else, get_or, resolve_default_locked,
  resolve_default_for_record,
}

-- A result of the search is supported.
abbrev pub IsSupported : Record → Catalog → Option Str → Type 0
IsSupported r c none = Unit
IsSupported r c (some id) = supports_record_locked r id c ≡ true

first_supported-IsSupported :
    (r : Record) (c : Catalog) (test : Entry → Bool) (es : List Entry)
    → IsSupported r c (first_supported r c test es)
unfolding first_supported
first_supported-IsSupported r c test [] = tt
first_supported-IsSupported r c test (e ∷ es) =
    elim (Bool-cases (test e && supports_record_locked r e.id c)) [
      | inl h ↦ rw h (ground arith)
      | inr h ↦ rw h (first_supported-IsSupported r c test es)
    ]

-- The search finds something where there is something.
first_supported-found :
    (r : Record) (c : Catalog) (e : Entry) (es : List Entry)
    → In e es
    → supports_record_locked r e.id c ≡ true
    → is_some (first_supported r c (λ e. true) es) ≡ true
unfolding first_supported
first_supported-found r c e [] i h = absurd i
first_supported-found r c e (x ∷ es) (inl w) h =
    let k = subst (λ y. supports_record_locked r y.id c ≡ true) (sym w) h in rw k refl
first_supported-found r c e (x ∷ es) (inr i) h =
    elim (Bool-cases (supports_record_locked r x.id c)) [
      | inl k ↦ rw k refl
      | inr k ↦ rw k (first_supported-found r c e es i h)
    ]

or_else-IsSupported :
    (r : Record) (c : Catalog) (a b : Option Str)
    → IsSupported r c a
    → IsSupported r c b
    → IsSupported r c (or_else a b)
or_else-IsSupported r c none b h k = k
or_else-IsSupported r c (some a) b h k = h

or_else-found :
    (a b : Option Str) → (is_some a ≡ true) ⊎ (is_some b ≡ true) → is_some (or_else a b) ≡ true
or_else-found none b h = ground arith
or_else-found (some a) b h = refl

get_or-supported :
    (r : Record) (c : Catalog) (d : Str) (a : Option Str)
    → IsSupported r c a
    → is_some a ≡ true
    → supports_record_locked r (get_or d a) c ≡ true
get_or-supported r c d none h s = cc
get_or-supported r c d (some id) h s = h

-- The three searches together.
or_else-supported :
    (r : Record) (c : Catalog) (a : Option Str) (e : Entry)
    → IsSupported r c a
    → In e c.visible ⊎ In e c.bootstrap
    → supports_record_locked r e.id c ≡ true
    → (d : Str)
    → supports_record_locked r
        (get_or d (
          or_else a (
            or_else
              (first_supported r c (λ e. true) c.visible)
              (first_supported r c (λ e. true) c.bootstrap))))
        c
      ≡ true
or_else-supported r c a e k i h d =
    let v = first_supported r c (λ e. true) c.visible in
    let b = first_supported r c (λ e. true) c.bootstrap in
    let kv = first_supported-IsSupported r c (λ e. true) c.visible in
    let kb = first_supported-IsSupported r c (λ e. true) c.bootstrap in
    let found : (is_some v ≡ true) ⊎ (is_some b ≡ true) = elim i [
      | inl j ↦ inl (first_supported-found r c e c.visible j h)
      | inr j ↦ inr (first_supported-found r c e c.bootstrap j h)
    ] in
    get_or-supported r c d (or_else a (or_else v b))
      (or_else-IsSupported r c a (or_else v b) k (or_else-IsSupported r c v b kv kb))
      (or_else-found a (or_else v b) (inr (or_else-found v b found)))

-- When the account supports a model that is visible or in the bootstrap, the default that is
-- resolved for it, whatever is configured, is one that it supports.
pub resolve_default-supported :
    (r : Record) (configured : Str) (e : Entry) (c : Catalog)
    → In e c.visible ⊎ In e c.bootstrap
    → supports_record_locked r e.id c ≡ true
    → supports_record_locked r (resolve_default_for_record r configured c) c ≡ true
unfolding resolve_default_for_record resolve_default_locked
resolve_default-supported r configured e c i h =
    let d = trim_space configured in
    let k =
      or_else-supported r c (first_supported r c (λ e. e.is_default) c.visible) e
        (first_supported-IsSupported r c (λ e. e.is_default) c.visible) i h d in
    ground arith
