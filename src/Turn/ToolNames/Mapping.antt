-- ===== src/Turn/ToolNames/Mapping.antt =====
-- The mapping of internal/turn/tool_names.go between names and short names.
use codex_model_tester.Base.{
  ◌≡◌, ◌≢◌, refl, ◌∙◌, inl, inr, true, false, none, some, List, [], ◌∷◌, arith, if◌then◌else◌, Str,
  str_eq, str_eq_iff, str_eq_refl, trim_space, lookup, lookup-insert, Bool-cases, Option-cases,
}
use codex_model_tester.Turn.ToolNames.{
  ToolNames, contains, choose_name, register, shorten, shorten_trimmed,
}
use codex_model_tester.Turn.ToolNames.Suffix.{choose_name-total, choose_name-fresh}

-- Every short name is in use, and is either the original itself, with no alias, or an alias of it.
pub record IsNames (m : ToolNames) : Type 0 where
  pub named : (o c : Str) → lookup o m.original_to_short ≡ some c → o ≢ []
  pub own : (o c : Str) → lookup o m.original_to_short ≡ some c → contains c m.used ≡ true
  pub back :
      (o c : Str)
      → lookup o m.original_to_short ≡ some c
      → lookup c m.short_to_original ≡ (if str_eq c o then none else some o)
  pub aliased : (c o : Str) → lookup c m.short_to_original ≡ some o → contains c m.used ≡ true

pub contains-cons :
    (c d : Str) (used : List Str) → contains d used ≡ true → contains d (c ∷ used) ≡ true
unfolding contains
contains-cons c d used h = ground arith

pub contains_self : (c : Str) (used : List Str) → contains c (c ∷ used) ≡ true
unfolding contains
contains_self c used = ground (arith, str_eq_refl c)

module _ (m : ToolNames) (v : IsNames m) (name c : Str) (ne : name ≢ [])
    (new : lookup name m.original_to_short ≡ none) (fresh : contains c m.used ≡ false) where
  apart : (d : Str) → contains d m.used ≡ true → str_eq c d ≡ false
  apart d h = ground (arith, str_eq_iff c d)

  no_alias : lookup c m.short_to_original ≡ none
  no_alias = elim (Option-cases (lookup c m.short_to_original)) [
    | inl e ↦ e
    | inr (o, e) ↦ absurd (cc (fresh, v.aliased c o e))
  ]

  lookup-aliases :
      (d : Str)
      → lookup d (register name c m).short_to_original ≡ (
          if str_eq c name
          then lookup d m.short_to_original
          else if str_eq c d
          then some name
          else lookup d m.short_to_original)
  unfolding register
  lookup-aliases d = ground (arith, lookup-insert c d name m.short_to_original)

  lookup-shorts :
      (o : Str)
      → lookup o (register name c m).original_to_short
        ≡ (if str_eq name o then some c else lookup o m.original_to_short)
  unfolding register
  lookup-shorts o = lookup-insert name o c m.original_to_short

  register-back :
      (o d : Str)
      → lookup o (register name c m).original_to_short ≡ some d
      → lookup d (register name c m).short_to_original ≡ (if str_eq d o then none else some o)
  register-back o d h = elim (Bool-cases (str_eq name o)) [
    | inl e ↦ ground (
      arith,
      lookup-aliases d,
      lookup-shorts o,
      str_eq_iff name o,
      no_alias,
      str_eq_iff c d,
      str_eq_iff c name,
      str_eq_iff d o,
    )
    | inr e ↦ old (rw (lookup-shorts o, e) at h)
  ]
    where
      old :
          lookup o m.original_to_short ≡ some d
          → lookup d (register name c m).short_to_original ≡ (if str_eq d o then none else some o)
      old g = ground (arith, lookup-aliases d, v.back o d g, apart d (v.own o d g))

  used-register : (register name c m).used ≡ c ∷ m.used
  unfolding register
  used-register = refl

  register-own :
      (o d : Str)
      → lookup o (register name c m).original_to_short ≡ some d
      → contains d (register name c m).used ≡ true
  register-own o d h = ground (
    arith,
    lookup-shorts o,
    v.own o d,
    used-register,
    contains_self c m.used,
    contains-cons c d m.used,
  )

  register-aliased :
      (d o : Str)
      → lookup d (register name c m).short_to_original ≡ some o
      → contains d (register name c m).used ≡ true
  register-aliased d o h = ground (
    arith,
    lookup-aliases d,
    v.aliased d o,
    used-register,
    str_eq_iff c d,
    contains_self c m.used,
    contains-cons c d m.used,
  )

  pub register-IsNames : IsNames (register name c m)
  register-IsNames = record {
    named = λ o d h. ground (arith, ne, lookup-shorts o, str_eq_iff name o, v.named o d);
    own = register-own;
    back = register-back;
    aliased = register-aliased;
  }

-- What `Shorten` of a name that is not blank does: the name was there, or is registered under a new
-- short name.
pub data Shortened (m : ToolNames) (trimmed : Str) (m' : ToolNames) (c : Str) : Type 0 where
  old : m' ≡ m → lookup trimmed m.original_to_short ≡ some c → Shortened m trimmed m' c
  added :
      lookup trimmed m.original_to_short ≡ none
      → choose_name trimmed m.used ≡ some c
      → m' ≡ register trimmed c m
      → Shortened m trimmed m' c

pub shorten-Shortened :
    (t : Str) (m m' : ToolNames) (c : Str)
    → shorten_trimmed t m ≡ some (m', c)
    → t ≢ []
    → Shortened m t m' c
unfolding shorten_trimmed
shorten-Shortened [] m m' c h ne = absurd (ne refl)
shorten-Shortened (b ∷ t) m m' c h ne = elim (Option-cases (lookup (b ∷ t) m.original_to_short)) [
  | inr (d, f) ↦
      old (ground (arith, rw (shorten_trimmed, f) at h))
        (f ∙ ground (arith, rw (shorten_trimmed, f) at h))
  | inl f ↦ elim (Option-cases (choose_name (b ∷ t) m.used)) [
    | inl g ↦ absurd (cc (rw (shorten_trimmed, f, g) at h))
    | inr (d, g) ↦
        let q : d ≡ c = ground (arith, rw (shorten_trimmed, f, g) at h) in
        added f (rw q at g) (ground (arith, q, rw (shorten_trimmed, f, g) at h))
  ]
]

-- `Shorten` always returns.
pub shorten-total : (name : Str) (m : ToolNames) → shorten name m ≢ none
unfolding shorten
shorten-total name m = go (trim_space name)
  where
    go : (t : Str) → shorten_trimmed t m ≢ none
    go [] h = cc
    go (b ∷ t) h = ground (arith, choose_name-total (b ∷ t) m.used)

Shortened-IsNames :
    (t : Str) (m m' : ToolNames) (c : Str) → IsNames m → t ≢ [] → Shortened m t m' c → IsNames m'
Shortened-IsNames t m m' c v ne (old e l) = rw e v
Shortened-IsNames t m m' c v ne (added l f e) =
    rw e (register-IsNames m v t c ne l (choose_name-fresh t m.used c f))

pub shorten_trimmed-IsNames :
    (t : Str) (m m' : ToolNames) (c : Str)
    → IsNames m
    → shorten_trimmed t m ≡ some (m', c)
    → IsNames m'
unfolding shorten_trimmed
shorten_trimmed-IsNames [] m m' c v h = let e : m ≡ m' = ground arith in rw (← e) v
shorten_trimmed-IsNames (b ∷ t) m m' c v h =
    Shortened-IsNames (b ∷ t) m m' c v (λ q. cc) (shorten-Shortened (b ∷ t) m m' c h (λ q. cc))

-- The short name is recorded.
pub shorten_trimmed-found :
    (t : Str) (m m' : ToolNames) (c : Str)
    → t ≢ []
    → Shortened m t m' c
    → lookup t m'.original_to_short ≡ some c
unfolding register
shorten_trimmed-found t m m' c ne (old e l) = rw e l
shorten_trimmed-found t m m' c ne (added l f e) =
    rw (e, register) (lookup-insert t t c m.original_to_short ∙ rw (str_eq_refl t) refl)

-- What was recorded stays.
pub shorten_trimmed-keeps :
    (t o d : Str) (m m' : ToolNames) (c : Str)
    → Shortened m t m' c
    → lookup o m.original_to_short ≡ some d
    → lookup o m'.original_to_short ≡ some d
unfolding register
shorten_trimmed-keeps t o d m m' c (old e l) h = rw e h
shorten_trimmed-keeps t o d m m' c (added l f e) h =
    rw (e, register) (ground (arith, lookup-insert t o c m.original_to_short, str_eq_iff t o))
