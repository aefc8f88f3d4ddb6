-- ===== src/Turn/ToolNames/Promises.antt =====
-- What `NewToolNames`, `Shorten` and `RestoreToolName` of internal/turn/tool_names.go promise.
use codex_model_tester.Base.{
  ℕ, suc, ◌+◌, ◌^◌, ◌≤◌, ◌≡◌, ◌≢◌, refl, sym, ap, subst, ◌∙◌, inl, inr, none, some, List, [], ◌∷◌,
  arith, length, Str, str_eq_iff, trim_space, lookup, In, Option-cases,
}
use codex_model_tester.Turn.ToolNames.{
  ToolNames, shorten, shorten_trimmed, keep_short, shorten_all, new_tool_names, aliases,
  restore_tool_name,
}
use codex_model_tester.Turn.ToolNames.Mapping.{
  IsNames, shorten-Shortened, shorten-total, shorten_trimmed-IsNames, shorten_trimmed-found,
  shorten_trimmed-keeps,
}
use codex_model_tester.Turn.ToolNames.RoundTrip.{
  restore-recorded, IsPlain, IsPlain-IsNames, keep_short-IsPlain, length-keep_short, Fits,
  Shortened-Fits, Shortened-length,
}

-- The state between two rounds of the second loop, with `k` rounds to come.
record Between (m : ToolNames) (k : ℕ) : Type 0 where
  names : IsNames m
  fits : Fits m
  room : length m.used + k ≤ 10 ^ 62

-- What later rounds keep of an earlier mapping.
abbrev Keeps : ToolNames → ToolNames → Type 0
Keeps m m' =
    (o d : Str) → lookup o m.original_to_short ≡ some d → lookup o m'.original_to_short ≡ some d

step-Between :
    (t : Str) (m m' : ToolNames) (c : Str) (k : ℕ)
    → Between m (suc k)
    → shorten_trimmed t m ≡ some (m', c)
    → Between m' k × Keeps m m'
unfolding shorten_trimmed
step-Between [] m m' c k b h =
    let e : m ≡ m' = ground arith in
    subst (λ x. Between x k × Keeps m x) e
      (record { names = b.names; fits = b.fits; room = omega (arith, b.room) }, λ o d g. g)
step-Between (x ∷ t) m m' c k b h =
    let s = shorten-Shortened (x ∷ t) m m' c h (λ q. cc) in
    (
      record {
        names = shorten_trimmed-IsNames (x ∷ t) m m' c b.names h;
        fits = Shortened-Fits (x ∷ t) m m' c b.fits (omega (arith, b.room)) s;
        room = omega (arith, b.room, Shortened-length (x ∷ t) m m' c s);
      },
      λ o d g. shorten_trimmed-keeps (x ∷ t) o d m m' c s g,
    )

-- All names are recorded at the end of the second loop.
record After (names : List Str) (m m' : ToolNames) : Type 0 where
  state : Between m' 0
  keeps : Keeps m m'
  recorded :
      (name : Str)
      → In name names
      → trim_space name ≢ []
      → (c : Str) × (lookup (trim_space name) m'.original_to_short ≡ some c)

shorten_all-After :
    (names : List Str) (m m' : ToolNames)
    → Between m (length names)
    → shorten_all names m ≡ some m'
    → After names m m'
unfolding shorten_all shorten
shorten_all-After [] m m' b h =
    let e : m ≡ m' = ground arith in
    subst (After [] m) e (record { state = b; keeps = λ o d g. g; recorded = λ name i. absurd i })
shorten_all-After (name ∷ names) m m' b h =
    elim (Option-cases (shorten_trimmed (trim_space name) m)) [
      | inl e ↦ absurd (cc (rw (shorten_all, e) at h))
      | inr ((m1, c), e) ↦
          let (b1, k1) = step-Between (trim_space name) m m1 c (length names) b e in
          let rest = shorten_all-After names m1 m' b1 (rw (shorten_all, e) at h) in
          let first : trim_space name ≢ []
              → (d : Str) × (lookup (trim_space name) m'.original_to_short ≡ some d) =
            λ ne. (
              c,
              rest.keeps (trim_space name) c (
                  shorten_trimmed-found (trim_space name) m m1 c ne
                    (shorten-Shortened (trim_space name) m m1 c e ne)),
            ) in
          record {
            state = rest.state;
            keeps = λ o d g. rest.keeps o d (k1 o d g);
            recorded = λ x i ne. elim i [
              | inl q ↦
                  subst (λ z. (d : Str) × (lookup (trim_space z) m'.original_to_short ≡ some d)) q
                    (first (λ z. ne (ap trim_space (sym q) ∙ z)))
              | inr j ↦ rest.recorded x j ne
            ];
          }
    ]

shorten_all-total : (names : List Str) (m : ToolNames) → shorten_all names m ≢ none
unfolding shorten_all
shorten_all-total [] m h = cc
shorten_all-total (name ∷ names) m h = elim (Option-cases (shorten name m)) [
  | inl e ↦ shorten-total name m e
  | inr ((m1, c), e) ↦ shorten_all-total names m1 (rw (shorten_all, e) at h)
]

abbrev no_names : ToolNames
no_names = record { original_to_short = []; short_to_original = []; used = [] }

no_names-IsPlain : IsPlain no_names
no_names-IsPlain = record { no_aliases = refl; plain = λ o c h. absurd (unfold lookup in cc h) }

new_tool_names-After :
    (names : List Str) (m : ToolNames)
    → length names + length names ≤ 10 ^ 62
    → new_tool_names names ≡ some m
    → After names (keep_short names no_names) m
unfolding new_tool_names
new_tool_names-After names m b h =
    shorten_all-After names (keep_short names no_names) m
      (record {
        names = IsPlain-IsNames _ plain;
        fits = λ o c g. (plain.plain o c g).3;
        room = omega (arith, length-keep_short names no_names);
      })
      h
  where
    plain : IsPlain (keep_short names no_names)
    plain = keep_short-IsPlain names no_names no_names-IsPlain

-- `NewToolNames` always returns: the fuel for its loops over suffix numbers, one more than the
-- names in use, is never used up.
pub new_tool_names-total : (names : List Str) → (m : ToolNames) × (new_tool_names names ≡ some m)
unfolding new_tool_names
new_tool_names-total names = elim (Option-cases (new_tool_names names)) [
  | inl e ↦ absurd (shorten_all-total names (keep_short names no_names) e)
  | inr (m, e) ↦ (m, e)
]

shorten-recorded :
    (name : Str) (m : ToolNames) (c : Str)
    → trim_space name ≢ []
    → shorten name m ≡ some (m, c)
    → lookup (trim_space name) m.original_to_short ≡ some c
unfolding shorten
shorten-recorded name m c ne h =
    shorten_trimmed-found (trim_space name) m m c ne
      (shorten-Shortened (trim_space name) m m c h ne)

-- A short name that neither begins nor ends with a space is restored to the trimmed name that
-- it stands for, as long as there are at most 5 * 10^61 names.
pub new_tool_names-restore :
    (names : List Str) (m : ToolNames) (name c : Str)
    → length names + length names ≤ 10 ^ 62
    → new_tool_names names ≡ some m
    → shorten name m ≡ some (m, c)
    → trim_space name ≢ []
    → trim_space c ≡ c
    → restore_tool_name c (aliases m) ≡ trim_space name
new_tool_names-restore names m name c b h s ne t =
    restore-recorded m (trim_space name) c (new_tool_names-After names m b h).state.names
      (shorten-recorded name m c ne s) t

names-apart :
    (m : ToolNames) (o p c : Str)
    → IsNames m
    → lookup o m.original_to_short ≡ some c
    → lookup p m.original_to_short ≡ some c
    → o ≡ p
names-apart m o p c v h g =
    ground (arith, v.back o c h, v.back p c g, str_eq_iff c o, str_eq_iff c p)

-- Two names that are not blank and have one short name are the same name but for space around
-- them, as long as there are at most 5 * 10^61 names.
pub new_tool_names_unique :
    (names : List Str) (m : ToolNames) (name other c : Str)
    → length names + length names ≤ 10 ^ 62
    → new_tool_names names ≡ some m
    → trim_space name ≢ []
    → trim_space other ≢ []
    → shorten name m ≡ some (m, c)
    → shorten other m ≡ some (m, c)
    → trim_space name ≡ trim_space other
new_tool_names_unique names m name other c b h n o s t =
    names-apart m (trim_space name) (trim_space other) c
      (new_tool_names-After names m b h).state.names (shorten-recorded name m c n s)
      (shorten-recorded other m c o t)
