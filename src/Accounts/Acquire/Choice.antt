-- ===== src/Accounts/Acquire/Choice.antt =====
-- Which account `AcquireMatching` of internal/accounts/service.go hands out.
use codex_model_tester.Base.{
  ℕ, ◌≡◌, refl, sym, ap, ◌∙◌, inl, inr, Bool, true, Option, none, some, List, [], ◌∷◌, map, arith,
  Str, Dict, str_eq_iff, lookup, In, keep, In-keep, Option-cases, Bool-cases,
}
use codex_model_tester.Accounts.Types.{
  Time, Record, RotationStrategy, least_used, round_robin, sticky, other,
}
use codex_model_tester.Accounts.Clone.{clone_record, clone_record_idem}
use codex_model_tester.Accounts.Quota.{is_eligible}
use codex_model_tester.Accounts.Rotation.{select_least_used}
use codex_model_tester.Accounts.Rotation.Select.{select_round_robin-In, select_least_used-In}
use codex_model_tester.Accounts.Store.{ok, err, Service, Outcome, values, no_active_accounts}
use codex_model_tester.Accounts.Acquire.{
  allows, is_candidate, candidates, preferred_candidate, sticky_candidate, rotate, choose, picked,
}

pub lookup-In : (id : Str) (m : Dict Record) (r : Record) → lookup id m ≡ some r → In r (values m)
unfolding lookup
lookup-In id [] r e = cc
lookup-In id ((j, w) ∷ m) r e = ground (arith, lookup-In id m r)

In-map :
    {A B : Type 0} (f : A → B) (b : B) (xs : List A)
    → In b (map f xs)
    → (a : A) × In a xs × (f a ≡ b)
In-map f b [] h = absurd h
In-map f b (x ∷ xs) (inl e) = (x, inl refl, e)
In-map f b (x ∷ xs) (inr h) = let (a, i, e) = In-map f b xs h in (a, inr i, e)

pub map-In : {A B : Type 0} (f : A → B) (a : A) (xs : List A) → In a xs → In (f a) (map f xs)
map-In f a [] h = absurd h
map-In f a (x ∷ xs) (inl e) = inl (ap f e)
map-In f a (x ∷ xs) (inr h) = inr (map-In f a xs h)

sticky_candidate-In :
    (id : Str) (cs : List Record) (r : Record)
    → sticky_candidate id cs ≡ some r
    → In r cs × (r.id ≡ id)
unfolding sticky_candidate
sticky_candidate-In id [] r e = cc
sticky_candidate-In id (c ∷ cs) r e =
    ground (arith, sticky_candidate-In id cs r, str_eq_iff c.id id)

picked-some :
    (s s' : Service) (o : Option (Record × ℕ)) (r : Record)
    → picked s o ≡ (s', ok r)
    → (c : Record) × (next : ℕ) × (o ≡ some (c, next)) × (clone_record c ≡ r)
picked-some s s' none r h = cc
picked-some s s' (some (c, next)) r h = (c, next, refl, ground arith)

-- A rotation hands out the clone of one of the candidates.
rotate-In :
    (strategy : RotationStrategy) (cs : List Record) (s s' : Service) (r : Record)
    → rotate strategy cs s ≡ (s', ok r)
    → (c : Record) × In c cs × (clone_record c ≡ r)
unfolding rotate
rotate-In round_robin cs s s' r h =
    let (c, next, e, q) = picked-some s s' _ r h in
    (c, select_round_robin-In cs s.round_robin_index next c e, q)
rotate-In least_used cs s s' r h =
    let (c, next, e, q) = picked-some s s' _ r h in
    (c, select_least_used-In cs s.round_robin_index next c e, q)
rotate-In (other name) cs s s' r h =
    let (c, next, e, q) = picked-some s s' _ r h in
    (c, select_least_used-In cs s.round_robin_index next c e, q)
rotate-In sticky cs s s' r h = elim (Option-cases (sticky_candidate s.sticky_account_id cs)) [
  | inl e ↦
      let (c, next, e', q) =
        picked-some s s' (select_least_used cs s.round_robin_index) r (rw (e, rotate) at h) in
      (c, select_least_used-In cs s.round_robin_index next c e', q)
  | inr (c, e) ↦
      (c, (sticky_candidate-In s.sticky_account_id cs c e).0, ground (arith, rw (e, rotate) at h))
]

-- The record that an acquired one is the clone of.
pub record Source (allow : Option (Record → Bool)) (now : Time) (m : Dict Record) (r : Record)
    : Type 0 where
  pub stored : Record
  pub member : In stored (values m)
  pub eligible : is_eligible stored now ≡ true
  pub allowed : allows allow (clone_record stored) ≡ true
  pub cloned : r ≡ clone_record stored

is_candidate-parts :
    (allow : Option (Record → Bool)) (now : Time) (q : Record)
    → is_candidate allow now q ≡ true
    → (is_eligible q now ≡ true) × (allows allow (clone_record q) ≡ true)
is_candidate-parts allow now q h = ground arith

candidates-Source :
    (allow : Option (Record → Bool)) (now : Time) (m : Dict Record) (c r : Record)
    → In c (candidates allow now m)
    → clone_record c ≡ r
    → Source allow now m r
candidates-Source allow now m c r i e =
    let (q, j, f) = In-map clone_record c (keep (is_candidate allow now) (values m)) i in
    let (k, p) = In-keep (is_candidate allow now) q (values m) j in
    let (el, al) = is_candidate-parts allow now q p in
    record {
      stored = q;
      member = k;
      eligible = el;
      allowed = al;
      cloned = sym e ∙ ap clone_record (sym f) ∙ clone_record_idem q;
    }

preferred-Source :
    (allow : Option (Record → Bool)) (now : Time) (id : Str) (m : Dict Record) (r : Record)
    → preferred_candidate allow now id m ≡ some r
    → Source allow now m r
unfolding preferred_candidate
preferred-Source allow now id m r h = elim (Option-cases (lookup id m)) [
  | inl e ↦ absurd (ground (arith, rw (e, preferred_candidate) at h))
  | inr (q, e) ↦ elim (Bool-cases (is_candidate allow now q)) [
    | inl p ↦
        let (el, al) = is_candidate-parts allow now q p in
        record {
          stored = q;
          member = lookup-In id m q e;
          eligible = el;
          allowed = al;
          cloned = ground (arith, rw (e, preferred_candidate, p) at h);
        }
    | inr p ↦ absurd (ground (arith, rw (e, preferred_candidate, p) at h))
  ]
]

pub choose-Source :
    (allow : Option (Record → Bool)) (now : Time) (id : Str) (s s' : Service) (r : Record)
    → choose allow now id s ≡ (s', ok r)
    → Source allow now s.records r
unfolding choose
choose-Source allow now id s s' r h =
    elim (Option-cases (preferred_candidate allow now id s.records)) [
      | inr (q, e) ↦
          preferred-Source allow now id s.records r (e ∙ ground (arith, rw (e, choose) at h))
      | inl e ↦ go (candidates allow now s.records) refl (rw (e, choose) at h)
    ]
  where
    go :
        (cs : List Record)
        → candidates allow now s.records ≡ cs
        → ◌≡◌ {A = Outcome Record}
            (elim (candidates allow now s.records) [
              | [] ↦ (s, err no_active_accounts)
              | c ∷ cs ↦ rotate s.rotation_strategy (c ∷ cs) s
            ])
            (s', ok r)
        → Source allow now s.records r
    go [] e k = absurd (cc (rw e at k))
    go (c ∷ cs) e k =
        let (d, i, q) = rotate-In s.rotation_strategy (c ∷ cs) s s' r (rw e at k) in
        candidates-Source allow now s.records d r (rw e i) q
