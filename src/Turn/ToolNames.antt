-- ===== src/Turn/ToolNames.antt =====
-- internal/turn/tool_names.go: short upstream names for tools, and the way back.
pub mod Suffix
pub mod Mapping
pub mod RoundTrip
pub mod Promises
pub mod Spaces
use codex_model_tester.Base.{
  ℕ, zero, suc, ◌+◌, ◌-◌, ◌<◌, min, Bool, true, false, not, ◌||◌, Option, none, some, List, [], ◌∷◌,
  ◌++◌, if◌then◌else◌, ltb, length, take, drop, Str, Dict, bytes, str_eq, is_empty, trim_space,
  has_prefix, last_index, itoa, lookup, insert,
}

abbrev pub max_tool_name_length : ℕ
max_tool_name_length = 64

-- `used` holds the keys of a set. A nil `*ToolNames` is `none` where a method takes one.
pub record ToolNames : Type 0 where
  pub original_to_short : Dict Str
  pub short_to_original : Dict Str
  pub used : List Str

-- `_, exists := used[name]`
unfoldable pub contains : Str → List Str → Bool
contains name [] = false
contains name (x ∷ xs) = let rest = contains name xs in if str_eq x name then true else rest

unfoldable pub tool_name_candidate : Str → Str
tool_name_candidate name =
    if not (ltb max_tool_name_length (length name))
    then name
    else if has_prefix name (bytes "mcp__")
    then elim (last_index name (bytes "__")) [
      | none ↦ take max_tool_name_length name
      | some zero ↦ take max_tool_name_length name
      | some (suc index) ↦ take max_tool_name_length (bytes "mcp__" ++ drop (suc index + 2) name)
    ]
    else take max_tool_name_length name

-- `base[:min(len(base), maxToolNameLength-len(suffix))] + suffix`
unfoldable pub suffixed : Str → ℕ → Str
suffixed base number =
    let suffix = bytes "_" ++ itoa number in
    take (min (length base) (max_tool_name_length - length suffix)) base ++ suffix

-- The loop over suffix numbers, with fuel; `none` means that the fuel ran out.
unfoldable pub free_name : ℕ → Str → List Str → ℕ → Option Str
unfolding contains suffixed
free_name zero base used number = none
free_name (suc fuel) base used number =
    let rest = free_name fuel base used (number + 1) in
    if not (contains (suffixed base number) used) then some (suffixed base number) else rest

-- The candidate, or the first suffixed one that is not in use.
unfoldable pub choose_name : Str → List Str → Option Str
unfolding free_name
choose_name name used =
    let candidate = tool_name_candidate name in
    if contains candidate used
    then free_name (suc (length used)) candidate used 1
    else some candidate

unfoldable pub register : Str → Str → ToolNames → ToolNames
register name candidate m = record m {
  original_to_short = insert name candidate m.original_to_short;
  used = candidate ∷ m.used;
  short_to_original =
      if not (str_eq candidate name)
      then insert candidate name m.short_to_original
      else m.short_to_original;
}

-- `Shorten` of a trimmed name: the new mapping and the short name; `none` means that the loop ran
-- out of fuel.
unfoldable pub shorten_trimmed : Str → ToolNames → Option (ToolNames × Str)
unfolding choose_name register
shorten_trimmed [] m = some (m, [])
shorten_trimmed (b ∷ name) m = elim (lookup (b ∷ name) m.original_to_short) [
  | some shortened ↦ some (m, shortened)
  | none ↦ elim (choose_name (b ∷ name) m.used) [
    | none ↦ none
    | some candidate ↦ some (register (b ∷ name) candidate m, candidate)
  ]
]

unfoldable pub shorten : Str → ToolNames → Option (ToolNames × Str)
unfolding shorten_trimmed
shorten name m = shorten_trimmed (trim_space name) m

-- One round of the first loop of `NewToolNames`: a name that fits stands for itself.
unfoldable pub keep_one : Str → ToolNames → ToolNames
keep_one trimmed m =
    if is_empty trimmed || ltb max_tool_name_length (length trimmed) then m else record m {
      original_to_short = insert trimmed trimmed m.original_to_short;
      used = trimmed ∷ m.used;
    }

unfoldable pub keep_short : List Str → ToolNames → ToolNames
unfolding keep_one
keep_short [] m = m
keep_short (name ∷ names) m = keep_short names (keep_one (trim_space name) m)

-- The second loop.
unfoldable pub shorten_all : List Str → ToolNames → Option ToolNames
unfolding shorten
shorten_all [] m = some m
shorten_all (name ∷ names) m = elim (shorten name m) [
  | none ↦ none
  | some (m', short) ↦ shorten_all names m'
]

unfoldable pub new_tool_names : List Str → Option ToolNames
unfolding keep_short shorten_all
new_tool_names names =
    shorten_all names
      (keep_short names (record { original_to_short = []; short_to_original = []; used = [] }))

unfoldable pub aliases : ToolNames → Dict Str
aliases m = m.short_to_original

-- `aliases[name]`, the empty text for a missing key.
abbrev lookup_text : Str → Dict Str → Str
lookup_text k m = elim (lookup k m) [ none ↦ [] | some v ↦ v ]

unfoldable pub restore_tool_name : Str → Dict Str → Str
restore_tool_name name aliases =
    let original = lookup_text (trim_space name) aliases in
    if is_empty original then name else original

-- The first alias, in the order of the iteration, that stands for the name.
unfoldable pub upstream_tool_name_from : Str → Str → Dict Str → Str
upstream_tool_name_from name trimmed [] = name
upstream_tool_name_from name trimmed ((shortened, original) ∷ m) =
    let rest = upstream_tool_name_from name trimmed m in
    if str_eq original trimmed then shortened else rest

unfoldable pub upstream_tool_name : Str → Dict Str → Str
unfolding upstream_tool_name_from
upstream_tool_name name aliases = upstream_tool_name_from name (trim_space name) aliases

-- `maps.Copy(dst, src)`
abbrev copy_into : Dict Str → Dict Str → Dict Str
copy_into dst [] = dst
copy_into dst ((k, v) ∷ src) = copy_into (insert k v dst) src

unfoldable pub merge_tool_name_aliases : Dict Str → Dict Str → Dict Str
merge_tool_name_aliases current [] = current
merge_tool_name_aliases current (e ∷ previous) = copy_into (e ∷ previous) current
