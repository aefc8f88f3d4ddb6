-- ===== src/Accounts/Rotation/Select.antt =====
-- What internal/accounts/rotation.go promises of the account that it selects.
use codex_model_tester.Base.{
  ℕ, suc, ◌≤◌, ◌≡◌, ◌≢◌, refl, sym, subst, ap, ◌⊎◌, inl, inr, true, false, some, List, [], ◌∷◌,
  arith, length, keep, In, All, In-keep, keep-In, All-In, All-of_In, Option-cases,
}
use codex_model_tester.Accounts.Types.{float_lt, Record}
use codex_model_tester.Accounts.Rotation.{
  sort_func, by_id, by_least_used, next_index, pick, select_round_robin, primary_percent,
  compare_least_used_quota, has_quota, tied_count, select_least_used, is_same,
}
use codex_model_tester.Accounts.Rotation.Sorting.{
  sort_func-In, In-sort_func, length-sort_func, sort_func-least,
}
use codex_model_tester.Accounts.Rotation.Picks.{
  IsSmall, IsNumber, key, pick-total, pick-In, rises, falls, same_key, tied_count-le, pick-tied,
  select_least_used-pick,
}

pub select_round_robin-In :
    (cs : List Record) (index next : ℕ) (r : Record)
    → select_round_robin cs index ≡ some (r, next)
    → In r cs
unfolding select_round_robin
select_round_robin-In cs index next r h =
    elim (Option-cases (pick (sort_func by_id cs) index (length cs))) [
      | inl e ↦ absurd (cc (rw (e, select_round_robin) at h))
      | inr (x, e) ↦
          let q : x ≡ r = ground (arith, rw (e, select_round_robin) at h) in
          sort_func-In by_id r cs (pick-In (sort_func by_id cs) index (length cs) r (rw q at e))
    ]

pub select_least_used-In :
    (cs : List Record) (index next : ℕ) (r : Record)
    → select_least_used cs index ≡ some (r, next)
    → In r cs
unfolding select_least_used
select_least_used-In cs index next r h = go (sort_func by_least_used (keep has_quota cs)) refl
  where
    go : (l : List Record) → sort_func by_least_used (keep has_quota cs) ≡ l → In r cs
    go [] e = select_round_robin-In cs index next r (rw (e, select_least_used) at h)
    go (first ∷ rest) e =
        (In-keep has_quota r cs (
          sort_func-In by_least_used r (keep has_quota cs) (
            subst (In r) (sym e) (
              pick-In (first ∷ rest) index (suc (tied_count first rest)) r
                (select_least_used-pick cs index next r first rest e h))))).0

-- The two functions are total on candidates while the index has not wrapped; the result is a candidate.
pub select_round_robin-total :
    (cs : List Record) (index : ℕ)
    → IsSmall index
    → cs ≢ []
    → (r : Record) × (select_round_robin cs index ≡ some (r, next_index index)) × In r cs
unfolding select_round_robin
select_round_robin-total [] index h ne = absurd (ne refl)
select_round_robin-total (c ∷ cs) index h ne =
    let sorted = sort_func by_id (c ∷ cs) in
    let (r, e) =
      pick-total sorted index (suc (length cs)) h (omega arith)
        (omega (arith, length-sort_func by_id (c ∷ cs))) in
    (
      r,
      rw (e, select_round_robin),
      sort_func-In by_id r (c ∷ cs) (pick-In sorted index (suc (length cs)) r e),
    )

pub select_least_used-total :
    (cs : List Record) (index : ℕ)
    → IsSmall index
    → cs ≢ []
    → (r : Record) × (select_least_used cs index ≡ some (r, next_index index)) × In r cs
unfolding select_least_used
select_least_used-total cs index h ne = go (sort_func by_least_used (keep has_quota cs)) refl
  where
    go :
        (l : List Record)
        → sort_func by_least_used (keep has_quota cs) ≡ l
        → (r : Record) × (select_least_used cs index ≡ some (r, next_index index)) × In r cs
    go [] e =
        let (r, q, i) = select_round_robin-total cs index h ne in
        (r, rw (e, select_least_used) q, i)
    go (first ∷ rest) e =
        let n = suc (tied_count first rest) in
        let (r, q) =
          pick-total (first ∷ rest) index n h (omega arith)
            (omega (arith, tied_count-le first rest)) in
        (
          r,
          rw (e, select_least_used, q),
          (In-keep has_quota r cs (
              sort_func-In by_least_used r (keep has_quota cs)
                (subst (In r) (sym e) (pick-In (first ∷ rest) index n r q)))).0,
        )

tied_key :
    (first r : Record)
    → IsNumber first
    → IsNumber r
    → (r ≡ first) ⊎ (is_same (compare_least_used_quota first r) ≡ true)
    → key r ≡ key first
tied_key first r p q (inl e) = ap key e
tied_key first r p q (inr e) = sym (same_key first r p q e)

least_of :
    (first : Record) (rest : List Record) (c r : Record)
    → All (λ y. key first ≤ key y) rest
    → In c (first ∷ rest)
    → key r ≡ key first
    → key r ≤ key c
least_of first rest c r a (inl e) k = omega (arith, ap key e)
least_of first rest c r a (inr i) k = omega (arith, All-In (λ y. key first ≤ key y) c rest a i)

not_lt :
    (c r : Record)
    → IsNumber c
    → IsNumber r
    → key r ≤ key c
    → float_lt (primary_percent c.cached_quota) (primary_percent r.cached_quota) ≡ false
not_lt c r p q h = ground arith

-- Where no candidate's primary percentage is NaN and the rotation index has not wrapped, a
-- candidate that has a primary percentage is never lower in it than the selected one, which has
-- one too, although the comparison with its optional parts is not transitive.
pub select_least_used-least :
    (cs : List Record) (index next : ℕ) (r c : Record)
    → IsSmall index
    → All IsNumber cs
    → select_least_used cs index ≡ some (r, next)
    → In c cs
    → has_quota c ≡ true
    → (has_quota r ≡ true)
      × (float_lt (primary_percent c.cached_quota) (primary_percent r.cached_quota) ≡ false)
unfolding select_least_used
select_least_used-least cs index next r c small numbers h i q =
    go (sort_func by_least_used kept) refl
  where
    kept : List Record
    kept = keep has_quota cs

    kept_numbers : All IsNumber kept
    kept_numbers =
        All-of_In IsNumber kept (λ a j. All-In IsNumber a cs numbers (In-keep has_quota a cs j).0)

    in_sorted : In c (sort_func by_least_used kept)
    in_sorted = In-sort_func by_least_used c kept (keep-In has_quota c cs i q)

    go :
        (l : List Record)
        → sort_func by_least_used kept ≡ l
        → (has_quota r ≡ true)
          × (float_lt (primary_percent c.cached_quota) (primary_percent r.cached_quota) ≡ false)
    go [] e = absurd (rw e at in_sorted)
    go (first ∷ rest) e =
        let n = suc (tied_count first rest) in
        let picked : pick (first ∷ rest) index n ≡ some r =
          select_least_used-pick cs index next r first rest e h in
        let member : (a : Record) → In a (first ∷ rest) → In a kept =
          λ a j. sort_func-In by_least_used a kept (subst (In a) (sym e) j) in
        let r_kept : In r kept = member r (pick-In (first ∷ rest) index n r picked) in
        let first_kept : In first kept = member first (inl refl) in
        let least = sort_func-least by_least_used IsNumber key rises falls kept kept_numbers e in
        let number : (a : Record) → In a kept → IsNumber a =
          λ a j. All-In IsNumber a kept kept_numbers j in
        (
          (In-keep has_quota r cs r_kept).1,
          not_lt c r (number c (keep-In has_quota c cs i q)) (number r r_kept) (
              least_of first rest c r least (subst (In c) e in_sorted) (
                tied_key first r (number first first_kept) (number r r_kept)
                  (pick-tied first rest index r picked small))),
        )
