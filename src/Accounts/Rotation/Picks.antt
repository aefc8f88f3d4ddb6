-- ===== src/Accounts/Rotation/Picks.antt =====
-- The elements that the rotation of internal/accounts/rotation.go picks.
use codex_model_tester.Base.{
  ℕ, zero, suc, ◌%◌, ◌^◌, ◌≤◌, ◌<◌, ◌≡◌, ◌≢◌, refl, subst, ◌∙◌, ◌⊎◌, inl, inr, true, false, some,
  List, [], ◌∷◌, arith, length, get_elem?, keep, In, get_elem?-In, get_elem?-of_lt, Bool-cases,
  Option-cases,
}
use codex_model_tester.Accounts.Types.{Float64, nan, num, Record}
use codex_model_tester.Accounts.Rotation.{
  sort_func, by_least_used, signed_rem, pick, primary_percent, compare_least_used_quota, has_quota,
  tied_count, select_least_used, is_below, is_same,
}

-- The index has not wrapped: it is a nonnegative `int`.
abbrev pub IsSmall : ℕ → Type 0
IsSmall index = index < 2 ^ 63

-- The primary percentage of a record is a number.
abbrev pub IsNumber : Record → Type 0
IsNumber r = primary_percent r.cached_quota ≢ nan

abbrev pub float_key : Float64 → ℕ
float_key nan = 0
float_key (num k) = k

abbrev pub key : Record → ℕ
key r = float_key (primary_percent r.cached_quota)

pub signed_rem_small : (index n : ℕ) → IsSmall index → signed_rem index n ≡ some (index % n)
unfolding signed_rem
signed_rem_small index n h = ground arith

pub pick-total :
    (cs : List Record) (index n : ℕ)
    → IsSmall index
    → 0 < n
    → n ≤ length cs
    → (r : Record) × (pick cs index n ≡ some r)
unfolding pick
pick-total cs index n h pos le =
    rw (signed_rem_small index n h, pick) (get_elem?-of_lt cs (index % n) (omega arith))

pub pick-In : (cs : List Record) (index n : ℕ) (r : Record) → pick cs index n ≡ some r → In r cs
unfolding pick
pick-In cs index n r h = elim (Option-cases (signed_rem index n)) [
  | inl e ↦ ground arith
  | inr (i, e) ↦ get_elem?-In r cs i (ground arith)
]

pub rises :
    (x y : Record) → IsNumber x → IsNumber y → is_below (by_least_used x y) ≡ false → key y ≤ key x
unfolding compare_least_used_quota
rises x y p q h = ground arith

pub falls :
    (x y : Record) → IsNumber x → IsNumber y → is_below (by_least_used x y) ≡ true → key x ≤ key y
unfolding compare_least_used_quota
falls x y p q h = ground arith

pub same_key :
    (x y : Record)
    → IsNumber x
    → IsNumber y
    → is_same (compare_least_used_quota x y) ≡ true
    → key x ≡ key y
unfolding compare_least_used_quota
same_key x y p q h = ground arith

-- Every element that the tied count covers compares as the first one.
pub tied-same :
    (first : Record) (rest : List Record) (i : ℕ) (r : Record)
    → i < tied_count first rest
    → get_elem? rest i ≡ some r
    → is_same (compare_least_used_quota first r) ≡ true
unfolding tied_count
tied-same first [] i r h e = cc
tied-same first (x ∷ xs) zero r h e =
    elim (Bool-cases (is_same (compare_least_used_quota first x))) [
      | inl same ↦
          let q : x ≡ r = ground arith in
          subst (λ y. is_same (compare_least_used_quota first y) ≡ true) q same
      | inr other ↦ absurd (omega (arith, rw other at h))
    ]
tied-same first (x ∷ xs) (suc i) r h e =
    elim (Bool-cases (is_same (compare_least_used_quota first x))) [
      | inl same ↦ tied-same first xs i r (omega (arith, rw same at h)) e
      | inr other ↦ absurd (omega (arith, rw other at h))
    ]

pub tied_count-le : (first : Record) (rest : List Record) → tied_count first rest ≤ length rest
unfolding tied_count
tied_count-le first [] = omega arith
tied_count-le first (x ∷ xs) = ground (arith, tied_count-le first xs)

pub pick-tied :
    (first : Record) (rest : List Record) (index : ℕ) (r : Record)
    → pick (first ∷ rest) index (suc (tied_count first rest)) ≡ some r
    → IsSmall index
    → (r ≡ first) ⊎ (is_same (compare_least_used_quota first r) ≡ true)
unfolding pick
pick-tied first rest index r h small =
    go (index % n) refl (rw (signed_rem_small index n small, pick) at h)
  where
    n : ℕ
    n = suc (tied_count first rest)

    go :
        (i : ℕ)
        → index % n ≡ i
        → get_elem? (first ∷ rest) (index % n) ≡ some r
        → (r ≡ first) ⊎ (is_same (compare_least_used_quota first r) ≡ true)
    go zero e h = inl (ground arith)
    go (suc i) e h = inr (tied-same first rest i r (omega arith) (rw e at h))

pub select_least_used-pick :
    (cs : List Record) (index next : ℕ) (r first : Record) (rest : List Record)
    → sort_func by_least_used (keep has_quota cs) ≡ first ∷ rest
    → select_least_used cs index ≡ some (r, next)
    → pick (first ∷ rest) index (suc (tied_count first rest)) ≡ some r
unfolding select_least_used
select_least_used-pick cs index next r first rest e h =
    elim (Option-cases (pick (first ∷ rest) index (suc (tied_count first rest)))) [
      | inl p ↦ absurd (cc (rw (e, select_least_used, p) at h))
      | inr (x, p) ↦ p ∙ ground (arith, rw (e, select_least_used, p) at h)
    ]
