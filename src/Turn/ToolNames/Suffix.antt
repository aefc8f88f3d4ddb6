-- ===== src/Turn/ToolNames/Suffix.antt =====
-- The numbered suffixes of internal/turn/tool_names.go and the search for a free one.
use mathlib.Core.List.{reverse-append, reverse-cons, reverse-reverse, append_assoc}
use native.Mathlib.Nat.{add-zero, pow-suc}
use codex_model_tester.Base.{
  ℕ, zero, suc, ◌+◌, ◌-◌, ◌*◌, ◌/◌, ◌^◌, ◌≤◌, ◌<◌, min, ◌≡◌, ◌≢◌, refl, sym, ap, ◌∙◌, true, false,
  none, some, Option, List, [], ◌∷◌, ◌++◌, map, reverse, arith, if◌then◌else◌, ◌==◌, ltb, length,
  has_prefix, last_index, drop, length-append, length-take, length-reverse, length-map, take, Str,
  bytes, str_eq, str_eq_iff, itoa, text_rev, digits_rev, digit_char, All, Bool-cases, inl, inr,
}
use codex_model_tester.Turn.ToolNames.{
  max_tool_name_length, suffixed, contains, free_name, choose_name, tool_name_candidate,
}

value : List ℕ → ℕ
value [] = 0
value (d ∷ ds) = d + 10 * value ds

value-digits : (fuel n : ℕ) → n < fuel → value (digits_rev 10 fuel n) ≡ n
unfolding value digits_rev
value-digits zero n h = absurd (omega arith)
value-digits (suc fuel) n h = elim (Bool-cases (n / 10 == 0)) [
  | inl e ↦ rw e (ground arith)
  | inr e ↦ rw e (omega (arith, value-digits fuel (n / 10) (ground arith)))
]

digits-small : (fuel n : ℕ) → All (λ d. d < 10) (digits_rev 10 fuel n)
unfolding digits_rev
digits-small zero n = tt
digits-small (suc fuel) n = ground (arith, digits-small fuel (n / 10))

-- The number before the first underscore, read from the least digit on.
parse_rev : Str → ℕ
parse_rev [] = 0
parse_rev (c ∷ s) = let rest = parse_rev s in if c == 95 then 0 else c - 48 + 10 * rest

parse_rev-text :
    (ds : List ℕ) (s : Str)
    → All (λ d. d < 10) ds
    → parse_rev (map digit_char ds ++ 95 ∷ s) ≡ value ds
unfolding parse_rev value
parse_rev-text [] s a = refl
parse_rev-text (d ∷ ds) s a = ground (arith, parse_rev-text ds s a.1)

rev_split : (p t : Str) → reverse (p ++ 95 ∷ reverse t) ≡ t ++ 95 ∷ reverse p
rev_split p t =
    reverse-append p (95 ∷ reverse t)
    ∙ ap (λ (x : Str). x ++ reverse p)
        (reverse-cons 95 (reverse t) ∙ ap (λ (x : Str). x ++ 95 ∷ []) (reverse-reverse t))
    ∙ append_assoc t (95 ∷ []) (reverse p)

parse_rev-suffixed : (base : Str) (number : ℕ) → parse_rev (reverse (suffixed base number)) ≡ number
unfolding suffixed itoa text_rev
parse_rev-suffixed base number =
    ap parse_rev (rev_split (take _ base) (text_rev 10 number))
    ∙ parse_rev-text (digits_rev 10 (suc number) number) (reverse (take _ base))
        (digits-small (suc number) number)
    ∙ value-digits (suc number) number (omega arith)

suffixed-injective : (base : Str) (n m : ℕ) → suffixed base n ≡ suffixed base m → n ≡ m
suffixed-injective base n m e =
    sym (parse_rev-suffixed base n) ∙ ap (λ s. parse_rev (reverse s)) e ∙ parse_rev-suffixed base m

-- A list without the entries that equal `x`.
without : Str → List Str → List Str
without x [] = []
without x (y ∷ ys) = let rest = without x ys in if str_eq y x then rest else y ∷ rest

contains-without :
    (x y : Str) (used : List Str)
    → x ≢ y
    → contains y used ≡ true
    → contains y (without x used) ≡ true
unfolding without contains
contains-without x y [] ne h = h
contains-without x y (z ∷ zs) ne h =
    ground (arith, contains-without x y zs ne, str_eq_iff z x, str_eq_iff z y)

length-without-le : (x : Str) (used : List Str) → length (without x used) ≤ length used
unfolding without
length-without-le x [] = omega arith
length-without-le x (z ∷ zs) = ground (arith, length-without-le x zs)

length-without :
    (x : Str) (used : List Str) → contains x used ≡ true → length (without x used) < length used
unfolding without contains
length-without x [] h = cc
length-without x (z ∷ zs) h =
    ground (arith, length-without x zs, length-without-le x zs, str_eq_iff z x)

-- Different names that are all in use are no more than the names in use.
pigeonhole :
    (f : ℕ → Str) (k : ℕ) (used : List Str)
    → ((i j : ℕ) → f i ≡ f j → i ≡ j)
    → ((i : ℕ) → i < k → contains (f i) used ≡ true)
    → k ≤ length used
pigeonhole f zero used inj all = omega arith
pigeonhole f (suc k) used inj all =
    let ih = pigeonhole f k (without (f k) used) inj (λ i h.
      contains-without (f k) (f i) used (λ e. apart i h (inj k i e)) (all i (omega arith))) in
    omega (arith, ih, length-without (f k) used (all k (omega arith)))
  where
    apart : (i : ℕ) → i < k → k ≡ i → ⊥
    apart i h e = omega arith

-- Where the loop runs out of fuel, it met only names in use.
free_name-none :
    (fuel : ℕ) (base : Str) (used : List Str) (number i : ℕ)
    → free_name fuel base used number ≡ none
    → i < fuel
    → contains (suffixed base (number + i)) used ≡ true
unfolding free_name
free_name-none zero base used number i h lt = absurd (omega arith)
free_name-none (suc fuel) base used number zero h lt =
    elim (Bool-cases (contains (suffixed base number) used)) [
      | inr e ↦ absurd (ground (arith, rw (free_name, e) at h))
      | inl e ↦ rw add-zero e
    ]
free_name-none (suc fuel) base used number (suc i) h lt =
    elim (Bool-cases (contains (suffixed base number) used)) [
      | inr e ↦ absurd (ground (arith, rw (free_name, e) at h))
      | inl e ↦
          let move : number + suc i ≡ number + 1 + i = omega arith in
          rw move
            (free_name-none fuel base used (number + 1) i (rw (free_name, e) at h) (omega arith))
    ]

-- The loop over suffix numbers ends: one more number than there are names in use is enough.
pub choose_name-total : (name : Str) (used : List Str) → choose_name name used ≢ none
unfolding choose_name
choose_name-total name used h = elim (Bool-cases (contains (tool_name_candidate name) used)) [
  | inr e ↦ absurd (ground (arith, rw (choose_name, e) at h))
  | inl e ↦ too_many (rw (choose_name, e) at h)
]
  where
    shifted :
        (i j : ℕ)
        → suffixed (tool_name_candidate name) (1 + i) ≡ suffixed (tool_name_candidate name) (1 + j)
        → i ≡ j
    shifted i j e = omega (arith, suffixed-injective (tool_name_candidate name) (1 + i) (1 + j) e)

    too_many : free_name (suc (length used)) (tool_name_candidate name) used 1 ≡ none → ⊥
    too_many h = absurd (
        omega (
          arith,
          pigeonhole (λ i. suffixed (tool_name_candidate name) (1 + i)) (suc (length used)) used
              shifted
              (λ i lt. free_name-none (suc (length used)) (tool_name_candidate name) used 1 i h lt),
        ))

free_name-fresh :
    (fuel : ℕ) (base : Str) (used : List Str) (number : ℕ) (c : Str)
    → free_name fuel base used number ≡ some c
    → contains c used ≡ false
unfolding free_name
free_name-fresh zero base used number c h = cc
free_name-fresh (suc fuel) base used number c h =
    ground (arith, free_name-fresh fuel base used (number + 1) c)

-- A chosen name is not in use.
pub choose_name-fresh :
    (name : Str) (used : List Str) (c : Str)
    → choose_name name used ≡ some c
    → contains c used ≡ false
unfolding choose_name
choose_name-fresh name used c h =
    ground (arith, free_name-fresh (suc (length used)) (tool_name_candidate name) used 1 c)

length-digits : (fuel n k : ℕ) → n < 10 ^ suc k → length (digits_rev 10 fuel n) ≤ suc k
unfolding digits_rev
length-digits zero n k h = omega arith
length-digits (suc fuel) n zero h = elim (Bool-cases (n / 10 == 0)) [
  | inl e ↦ rw e (omega arith)
  | inr e ↦ absurd (ground arith)
]
length-digits (suc fuel) n (suc k) h = elim (Bool-cases (n / 10 == 0)) [
  | inl e ↦ rw e (omega arith)
  | inr e ↦ rw e (omega (arith, length-digits fuel (n / 10) k (omega (arith, pow-suc 10 (suc k)))))
]

length-suffixed :
    (base : Str) (number : ℕ)
    → number < 10 ^ 63
    → length (suffixed base number) ≤ max_tool_name_length
unfolding suffixed itoa text_rev
length-suffixed base number h = omega (
  arith,
  length-append {0} (take _ base) (bytes "_" ++ itoa number),
  length-take {0} (min (length base) (64 - length (bytes "_" ++ itoa number))) base,
  length-itoa,
)
  where
    length-itoa : length (itoa number) ≤ 63
    length-itoa = omega (
      arith,
      length-reverse (text_rev 10 number),
      length-map {0} (digits_rev 10 (suc number) number) digit_char,
      length-digits (suc number) number 62 h,
    )

length-free_name :
    (fuel : ℕ) (base : Str) (used : List Str) (number : ℕ) (c : Str)
    → free_name fuel base used number ≡ some c
    → number + fuel ≤ 10 ^ 63
    → length c ≤ max_tool_name_length
unfolding free_name
length-free_name zero base used number c h b = cc
length-free_name (suc fuel) base used number c h b =
    elim (Bool-cases (contains (suffixed base number) used)) [
      | inl e ↦
          length-free_name fuel base used (number + 1) c (rw (free_name, e) at h) (omega arith)
      | inr e ↦
          let q : suffixed base number ≡ c = ground (arith, rw (free_name, e) at h) in
          rw (← q) (length-suffixed base number (omega arith))
    ]

length-cut : (s : Str) → length (take max_tool_name_length s) ≤ max_tool_name_length
length-cut s = omega (arith, length-take {0} max_tool_name_length s)

length-candidate : (name : Str) → length (tool_name_candidate name) ≤ max_tool_name_length
unfolding tool_name_candidate
length-candidate name = elim (Bool-cases (ltb max_tool_name_length (length name))) [
  | inr e ↦ rw (tool_name_candidate, e) (ground arith)
  | inl e ↦ elim (Bool-cases (has_prefix name (bytes "mcp__"))) [
    | inr f ↦ rw (tool_name_candidate, e, f) (length-cut name)
    | inl f ↦ by_index e f (last_index name (bytes "__")) refl
  ]
]
  where
    by_index :
        ltb max_tool_name_length (length name) ≡ true
        → has_prefix name (bytes "mcp__") ≡ true
        → (o : Option ℕ) → last_index name (bytes "__") ≡ o
        → length (tool_name_candidate name) ≤ max_tool_name_length
    by_index e f none g = rw (tool_name_candidate, e, f, g) (length-cut name)
    by_index e f (some zero) g = rw (tool_name_candidate, e, f, g) (length-cut name)
    by_index e f (some (suc index)) g =
        rw (tool_name_candidate, e, f, g) (length-cut (bytes "mcp__" ++ drop (suc index + 2) name))

-- A chosen name fits the limit, as long as fewer than 10^62 names are in use.
pub length-choose_name :
    (name : Str) (used : List Str) (c : Str)
    → choose_name name used ≡ some c
    → length used < 10 ^ 62
    → length c ≤ max_tool_name_length
unfolding choose_name
length-choose_name name used c h b = elim (Bool-cases (contains (tool_name_candidate name) used)) [
  | inl e ↦
      length-free_name (suc (length used)) (tool_name_candidate name) used 1 c
        (rw (choose_name, e) at h) (omega arith)
  | inr e ↦
      let q : tool_name_candidate name ≡ c = ground (arith, rw (choose_name, e) at h) in
      rw (← q) (length-candidate name)
]
