-- ===== src/Turn/ToolNames/Spaces.antt =====
-- A long tool name that internal/turn/tool_names.go cuts behind a space.
use codex_model_tester.Base.{
  ◌<◌, ◌≡◌, ◌≢◌, ◌∙◌, false, some, [], ◌∷◌, arith, length, length-take, take, ap, Str, bytes,
  str_eq_iff, trim_space, has_prefix, lookup, insert, lt→ltb,
}
use codex_model_tester.Turn.ToolNames.{
  max_tool_name_length, ToolNames, contains, tool_name_candidate, register, shorten,
  shorten_trimmed, keep_one, keep_short, shorten_all, new_tool_names, aliases, restore_tool_name,
}

cut_candidate :
    (name : Str)
    → max_tool_name_length < length name
    → has_prefix name (bytes "mcp__") ≡ false
    → tool_name_candidate name ≡ take max_tool_name_length name
unfolding tool_name_candidate
cut_candidate name long p = rw (tool_name_candidate, lt→ltb _ _ long, p)

abbrev cut : Str → Str
cut name = take max_tool_name_length name

abbrev no_names : ToolNames
no_names = record { original_to_short = []; short_to_original = []; used = [] }

cut-ne : (name : Str) → max_tool_name_length < length name → cut name ≢ name
cut-ne name long e =
    absurd (omega (arith, length-take {0} max_tool_name_length name, ap (λ (s : Str). length s) e))

keep_one_long :
    (name : Str) → max_tool_name_length < length name → keep_one name no_names ≡ no_names
unfolding keep_one
keep_one_long name long = ground (arith, lt→ltb _ _ long)

shorten_cut :
    (name : Str)
    → max_tool_name_length < length name
    → has_prefix name (bytes "mcp__") ≡ false
    → shorten_trimmed name no_names ≡ some (register name (cut name) no_names, cut name)
unfolding shorten_trimmed lookup contains
shorten_cut [] long p = absurd (omega arith)
shorten_cut (b ∷ t) long p = ground (arith, cut_candidate (b ∷ t) long p)

shorten_all-one :
    (name t c : Str) (m m' : ToolNames)
    → trim_space name ≡ t
    → shorten_trimmed t m ≡ some (m', c)
    → shorten_all (name ∷ []) m ≡ some m'
unfolding shorten_all shorten
shorten_all-one name t c m m' e h =
    let q : shorten_trimmed (trim_space name) m ≡ some (m', c) =
      ap (λ x. shorten_trimmed x m) e ∙ h in
    rw (shorten_all, q)

keep_short-one :
    (name : Str)
    → max_tool_name_length < length name
    → trim_space name ≡ name
    → keep_short (name ∷ []) no_names ≡ no_names
unfolding keep_short
keep_short-one name long t = ap (λ x. keep_one x no_names) t ∙ keep_one_long name long

new_cut :
    (name : Str)
    → max_tool_name_length < length name
    → has_prefix name (bytes "mcp__") ≡ false
    → trim_space name ≡ name
    → new_tool_names (name ∷ []) ≡ some (register name (cut name) no_names)
unfolding new_tool_names
new_cut name long p t =
    ap (shorten_all (name ∷ [])) (keep_short-one name long t)
    ∙ shorten_all-one name name (cut name) no_names (register name (cut name) no_names) t
        (shorten_cut name long p)

-- A trimmed name of more than 64 bytes that does not begin with "mcp__" and whose first 64
-- bytes begin or end with a space: of a mapping that `NewToolNames` makes for it alone,
-- `RestoreToolName` does not lead back from its short name, the first 64 bytes, but returns
-- that text itself.
pub restore-cut :
    (name : Str)
    → max_tool_name_length < length name
    → has_prefix name (bytes "mcp__") ≡ false
    → trim_space name ≡ name
    → trim_space (take max_tool_name_length name) ≢ take max_tool_name_length name
    → (m : ToolNames) × (new_tool_names (name ∷ []) ≡ some m)
      × (restore_tool_name (take max_tool_name_length name) (aliases m)
          ≡ take max_tool_name_length name)
      × (take max_tool_name_length name ≢ name)
unfolding restore_tool_name aliases register insert lookup
restore-cut name long p t sp = (
  register name (cut name) no_names,
  new_cut name long p t,
  ground (arith, sp, str_eq_iff (cut name) (trim_space (cut name))),
  cut-ne name long,
)
