-- ===== src/Accounts/Rotation/Fair.antt =====
-- The turns that `selectRoundRobin` of internal/accounts/rotation.go gives.
use native.Mathlib.Nat.{add-zero, mod-eq_of_lt, mod-add-mod, mod-eq-sub-mod, mod-lt}
use native.Mathlib.Decide.{dec_le}
use codex_model_tester.Base.{
  ℕ, zero, suc, ◌+◌, ◌-◌, ◌%◌, ◌^◌, ◌<◌, ◌≡◌, refl, sym, ap, ◌∙◌, inl, inr, none, some, List, [],
  ◌∷◌, arith, length, get_elem?, In,
}
use codex_model_tester.Accounts.Types.{Record}
use codex_model_tester.Accounts.Rotation.{sort_func, by_id, next_index, select_round_robin}
use codex_model_tester.Accounts.Rotation.Sorting.{In-sort_func, length-sort_func}
use codex_model_tester.Accounts.Rotation.Select.{select_round_robin-total}
use codex_model_tester.Accounts.Rotation.Picks.{IsSmall, signed_rem_small}

-- The records that `k` calls in a row select.
unfoldable pub turns : List Record → ℕ → ℕ → List Record
turns cs index zero = []
turns cs index (suc k) = elim (select_round_robin cs index) [
  | none ↦ []
  | some (r, next) ↦ r ∷ turns cs next k
]

In-position :
    {A : Type 0} (a : A) (xs : List A)
    → In a xs
    → (p : ℕ) × (p < length xs) × (get_elem? xs p ≡ some a)
In-position a [] h = absurd h
In-position a (x ∷ xs) (inl e) = (0, omega arith, ground arith)
In-position a (x ∷ xs) (inr h) = let (p, lt, e) = In-position a xs h in (suc p, omega arith, e)

-- The steps from the index to position `p`, round the end where needed.
turns_until : (index n p : ℕ) → p < n → (k : ℕ) × (k < n) × ((index + k) % n ≡ p)
turns_until index n p h = elim (dec_le (index % n) p) [
  | yes le ↦ (
    p - index % n,
    omega arith,
    sym (mod-add-mod index n (p - index % n))
        ∙ ap (λ (t : ℕ). t % n) (omega arith)
        ∙ mod-eq_of_lt h,
  )
  | no gt ↦
      let lt : index % n < n = mod-lt index (omega arith) in
      (
        n - index % n + p,
        omega arith,
        sym (mod-add-mod index n (n - index % n + p))
            ∙ ap (λ (t : ℕ). t % n) (omega arith)
            ∙ mod-eq-sub-mod {n = n + p} (omega arith)
            ∙ ap (λ (t : ℕ). t % n) (omega arith)
            ∙ mod-eq_of_lt h,
      )
]

select_at :
    (c : Record) (cs : List Record) (index p : ℕ)
    → IsSmall index
    → index % length cs ≡ p
    → get_elem? (sort_func by_id cs) p ≡ some c
    → select_round_robin cs index ≡ some (c, next_index index)
unfolding select_round_robin
select_at c cs index p small e g =
    rw (select_round_robin, signed_rem_small index (length cs) small, e, g)

select_total :
    (cs : List Record) (index : ℕ)
    → IsSmall index
    → 0 < length cs
    → (r : Record) × (select_round_robin cs index ≡ some (r, next_index index))
select_total [] index h pos = absurd (omega arith)
select_total (c ∷ cs) index h pos =
    let (r, e, i) = select_round_robin-total (c ∷ cs) index h (λ q. cc) in (r, e)

turns-In :
    (c : Record) (cs : List Record) (index : ℕ) (rounds k : ℕ)
    → index + rounds < 2 ^ 63
    → k < rounds
    → 0 < length cs
    → select_round_robin cs (index + k) ≡ some (c, next_index (index + k))
    → In c (turns cs index rounds)
unfolding turns
turns-In c cs index zero k small h pos e = absurd (omega arith)
turns-In c cs index (suc rounds) zero small h pos e =
    rw (turns, (rw (add-zero index) at e)) (inl refl)
turns-In c cs index (suc rounds) (suc k) small h pos e =
    let (r, q) = select_total cs index (omega arith) pos in
    let step : next_index index ≡ index + 1 = mod-eq_of_lt (omega arith) in
    let move : index + suc k ≡ index + 1 + k = omega arith in
    rw (turns, q)
      (inr (
        rw step
          (turns-In c cs (index + 1) rounds k (omega arith) (omega arith) pos (rw move at e))))

-- Over as many round-robin calls in a row as there are candidates, each candidate is selected,
-- as long as the index stays below 2^63.
pub turns-fair :
    (c : Record) (cs : List Record) (index : ℕ)
    → index + length cs < 2 ^ 63
    → In c cs
    → In c (turns cs index (length cs))
turns-fair c cs index small i =
    let (p, lt, g) = In-position c (sort_func by_id cs) (In-sort_func by_id c cs i) in
    let p_lt : p < length cs = omega (arith, length-sort_func by_id cs) in
    let (k, k_lt, e) = turns_until index (length cs) p p_lt in
    turns-In c cs index (length cs) k small k_lt (omega arith)
      (select_at c cs (index + k) p (omega arith) e g)
