-- ===== src/Turn/ToolNames/RoundTrip.antt =====
-- The steps of `NewToolNames` of internal/turn/tool_names.go: what each keeps of the mapping.
use codex_model_tester.Base.{
  suc, ◌+◌, ◌^◌, ◌≤◌, ◌<◌, ◌≡◌, ◌≢◌, refl, sym, subst, ◌∙◌, inl, inr, true, false, some, List, [],
  ◌∷◌, arith, ltb, length, Str, str_eq, str_eq_iff, trim_space, lookup, insert, lookup-insert,
  Bool-cases,
}
use codex_model_tester.Turn.ToolNames.{
  max_tool_name_length, ToolNames, contains, register, keep_one, keep_short, aliases,
  restore_tool_name,
}
use codex_model_tester.Turn.ToolNames.Suffix.{length-choose_name}
use codex_model_tester.Turn.ToolNames.Mapping.{
  IsNames, Shortened, old, added, contains_self, contains-cons,
}

-- A recorded short name that ends in no space leads back to its original.
pub restore-recorded :
    (m : ToolNames) (o c : Str)
    → IsNames m
    → lookup o m.original_to_short ≡ some c
    → trim_space c ≡ c
    → restore_tool_name c (aliases m) ≡ o
unfolding restore_tool_name aliases
restore-recorded m [] c v h t = absurd (v.named [] c h refl)
restore-recorded m (b ∷ o) c v h t = rw t (ground (arith, v.back (b ∷ o) c h, str_eq_iff c (b ∷ o)))

-- Before the second loop every recorded name stands for itself.
pub record IsPlain (m : ToolNames) : Type 0 where
  pub no_aliases : m.short_to_original ≡ []
  pub plain :
      (o c : Str)
      → lookup o m.original_to_short ≡ some c
      → (c ≡ o) × (o ≢ []) × (contains c m.used ≡ true) × (length c ≤ max_tool_name_length)

pub IsPlain-IsNames : (m : ToolNames) → IsPlain m → IsNames m
unfolding lookup
IsPlain-IsNames m p = record {
  named = λ o c h. (p.plain o c h).1;
  own = λ o c h. (p.plain o c h).2;
  back = λ o c h. rw p.no_aliases (ground (arith, p.plain o c h, str_eq_iff c o));
  aliased = λ c o h. absurd (cc (rw p.no_aliases at h));
}

keep_one-plain :
    (t : Str) (m : ToolNames) (o c : Str)
    → IsPlain m
    → lookup o (keep_one t m).original_to_short ≡ some c
    → (c ≡ o)
      × (o ≢ [])
      × (contains c (keep_one t m).used ≡ true)
      × (length c ≤ max_tool_name_length)
unfolding keep_one
keep_one-plain [] m o c p h = p.plain o c h
keep_one-plain (b ∷ t) m o c p h = elim (Bool-cases (ltb max_tool_name_length (length (b ∷ t)))) [
  | inl e ↦ rw (keep_one, e) (p.plain o c (rw (keep_one, e) at h))
  | inr e ↦ rw (keep_one, e) (kept e (rw (keep_one, e) at h))
]
  where
    kept :
        ltb max_tool_name_length (length (b ∷ t)) ≡ false
        → lookup o (insert (b ∷ t) (b ∷ t) m.original_to_short) ≡ some c
        → (c ≡ o)
          × (o ≢ [])
          × (contains c ((b ∷ t) ∷ m.used) ≡ true)
          × (length c ≤ max_tool_name_length)
    kept e h = elim (Bool-cases (str_eq (b ∷ t) o)) [
      | inl q ↦
          let same : b ∷ t ≡ o = (str_eq_iff (b ∷ t) o).0 q in
          let short : b ∷ t ≡ c = ground (arith, rw (lookup-insert, q) at h) in
          (
            sym short ∙ same,
            (λ z. cc (z, same)),
            subst (λ x. contains x ((b ∷ t) ∷ m.used) ≡ true) short (contains_self (b ∷ t) m.used),
            subst (λ (x : Str). length x ≤ max_tool_name_length) short (ground arith),
          )
      | inr q ↦
          let (same, ne, own, fits) = p.plain o c (rw (lookup-insert, q) at h) in
          (same, ne, contains-cons (b ∷ t) c m.used own, fits)
    ]

keep_one-IsPlain : (t : Str) (m : ToolNames) → IsPlain m → IsPlain (keep_one t m)
keep_one-IsPlain t m p = record { no_aliases = same; plain = λ o c h. keep_one-plain t m o c p h }
  where
    same : (keep_one t m).short_to_original ≡ []
    same = unfold keep_one in ground (arith, p.no_aliases)

pub keep_short-IsPlain :
    (names : List Str) (m : ToolNames) → IsPlain m → IsPlain (keep_short names m)
unfolding keep_short
keep_short-IsPlain [] m p = p
keep_short-IsPlain (name ∷ names) m p =
    keep_short-IsPlain names (keep_one (trim_space name) m) (keep_one-IsPlain (trim_space name) m p)

pub length-keep_short :
    (names : List Str) (m : ToolNames)
    → length (keep_short names m).used ≤ length names + length m.used
unfolding keep_short
length-keep_short [] m = omega arith
length-keep_short (name ∷ names) m =
    omega (arith, length-keep_short names (keep_one (trim_space name) m), length-keep_one)
  where
    length-keep_one : length (keep_one (trim_space name) m).used ≤ suc (length m.used)
    length-keep_one = unfold keep_one in ground arith

-- Every recorded short name fits the limit.
abbrev pub Fits : ToolNames → Type 0
Fits m = (o c : Str) → lookup o m.original_to_short ≡ some c → length c ≤ max_tool_name_length

pub Shortened-Fits :
    (t : Str) (m m' : ToolNames) (c : Str)
    → Fits m
    → length m.used < 10 ^ 62
    → Shortened m t m' c
    → Fits m'
unfolding register
Shortened-Fits t m m' c f b (old e l) = rw e f
Shortened-Fits t m m' c f b (added l g e) =
    rw (e, register)
      (λ o d h. ground (
        arith,
        rw (lookup-insert t o c m.original_to_short) at h,
        f o d,
        length-choose_name t m.used c g b,
      ))

pub Shortened-length :
    (t : Str) (m m' : ToolNames) (c : Str)
    → Shortened m t m' c
    → length m'.used ≤ suc (length m.used)
unfolding register
Shortened-length t m m' c (old e l) = rw e (omega arith)
Shortened-length t m m' c (added l g e) = rw (e, register) (omega arith)
