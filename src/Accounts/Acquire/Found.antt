-- ===== src/Accounts/Acquire/Found.antt =====
-- What the steps of AcquireMatching in internal/accounts/service.go find.
use codex_model_tester.Base.{
  ◌≡◌, ◌≢◌, refl, sym, ap, ◌∙◌, inl, inr, Bool, true, false, Option, none, some, List, [], ◌∷◌,
  arith, Str, Dict, str_eq, str_eq_iff, lookup, In, keep-In, Option-cases, Bool-cases,
}
use codex_model_tester.Accounts.Types.{
  Time, Record, RotationStrategy, least_used, round_robin, sticky, other,
}
use codex_model_tester.Accounts.Clone.{clone_record}
use codex_model_tester.Accounts.Quota.{is_eligible}
use codex_model_tester.Accounts.Rotation.Select.{select_round_robin-total, select_least_used-total}
use codex_model_tester.Accounts.Rotation.Picks.{IsSmall}
use codex_model_tester.Accounts.Store.{ok, Service, values}
use codex_model_tester.Accounts.Store.Refresh.{map_option}
use codex_model_tester.Accounts.Store.Keys.{IsKeyed}
use codex_model_tester.Accounts.Acquire.{
  allows, is_candidate, candidates, preferred_candidate, sticky_candidate, rotate, choose,
}
use codex_model_tester.Accounts.Acquire.Choice.{lookup-In, map-In}

pub is_candidate-of :
    (allow : Option (Record → Bool)) (now : Time) (q : Record)
    → is_eligible q now ≡ true
    → allows allow (clone_record q) ≡ true
    → is_candidate allow now q ≡ true
is_candidate-of allow now q e a = ground arith

pub preferred-found :
    (allow : Option (Record → Bool)) (now : Time) (id : Str) (m : Dict Record) (q : Record)
    → id ≢ []
    → lookup id m ≡ some q
    → is_candidate allow now q ≡ true
    → preferred_candidate allow now id m ≡ some (clone_record q)
unfolding preferred_candidate
preferred-found allow now [] m q ne e c = absurd (ne refl)
preferred-found allow now (b ∷ id) m q ne e c = rw (preferred_candidate, e, c)

-- With a candidate, and the index not wrapped, a rotation hands one out.
pub rotate-total :
    (strategy : RotationStrategy) (cs : List Record) (s : Service)
    → IsSmall s.round_robin_index
    → cs ≢ []
    → (r : Record) × ((rotate strategy cs s).1 ≡ ok r)
unfolding rotate
rotate-total round_robin cs s h ne =
    let (r, e, i) = select_round_robin-total cs s.round_robin_index h ne in
    (clone_record r, rw (rotate, e))
rotate-total least_used cs s h ne =
    let (r, e, i) = select_least_used-total cs s.round_robin_index h ne in
    (clone_record r, rw (rotate, e))
rotate-total (other name) cs s h ne =
    let (r, e, i) = select_least_used-total cs s.round_robin_index h ne in
    (clone_record r, rw (rotate, e))
rotate-total sticky cs s h ne = elim (Option-cases (sticky_candidate s.sticky_account_id cs)) [
  | inl n ↦
      let (r, e, i) = select_least_used-total cs s.round_robin_index h ne in
      (clone_record r, rw (rotate, n, e))
  | inr (c, e) ↦ (clone_record c, rw (rotate, e))
]

pub choose-total :
    (allow : Option (Record → Bool)) (now : Time) (id : Str) (s : Service) (q : Record)
    → IsSmall s.round_robin_index
    → In q (values s.records)
    → is_candidate allow now q ≡ true
    → (r : Record) × ((choose allow now id s).1 ≡ ok r)
unfolding choose
choose-total allow now id s q small i c =
    elim (Option-cases (preferred_candidate allow now id s.records)) [
      | inr (r, e) ↦ (r, rw (choose, e))
      | inl e ↦ go e (candidates allow now s.records) refl
    ]
  where
    member : In (clone_record q) (candidates allow now s.records)
    member = map-In clone_record q _ (keep-In (is_candidate allow now) q (values s.records) i c)

    go :
        preferred_candidate allow now id s.records ≡ none
        → (cs : List Record) → candidates allow now s.records ≡ cs
        → (r : Record) × ((choose allow now id s).1 ≡ ok r)
    go e [] f = absurd (rw f at member)
    go e (c ∷ cs) f =
        let (r, g) = rotate-total s.rotation_strategy (c ∷ cs) s small (λ q. cc) in
        (r, rw (choose, e, f, g))

pub clone_record-id : (r : Record) → (clone_record r).id ≡ r.id
unfolding clone_record
clone_record-id r = refl

pub map_option-some :
    (f : Record → Record) (o : Option Record) {b : Record}
    → map_option f o ≡ some b
    → (a : Record) × (o ≡ some a) × (f a ≡ b)
map_option-some f none e = cc
map_option-some f (some a) e = (a, refl, ground arith)

pub In-lookup :
    (m : Dict Record) (q : Record) → IsKeyed m → In q (values m) → lookup q.id m ≡ some q
unfolding lookup
In-lookup [] q k i = absurd i
In-lookup ((j, w) ∷ m) q k (inl e) =
    let same : j ≡ q.id = sym k.0 ∙ ap (λ (x : Record). x.id) e in
    rw (lookup, (str_eq_iff j q.id).1 same, e)
In-lookup ((j, w) ∷ m) q k (inr i) = elim (Bool-cases (str_eq j q.id)) [
  | inr n ↦ rw (lookup, n) (In-lookup m q k.2 i)
  | inl y ↦
      let same : j ≡ q.id = (str_eq_iff j q.id).0 y in cc (rw same at k.1, In-lookup m q k.2 i)
]

pub sticky_candidate-found :
    (id : Str) (c : Record) (cs : List Record)
    → id ≢ []
    → c.id ≡ id
    → In c cs
    → (d : Record) × (sticky_candidate id cs ≡ some d) × (d.id ≡ id)
unfolding sticky_candidate
sticky_candidate-found [] c cs ne e i = absurd (ne refl)
sticky_candidate-found (b ∷ id) c [] ne e i = absurd i
sticky_candidate-found (b ∷ id) c (x ∷ xs) ne e i = elim (Bool-cases (str_eq x.id (b ∷ id))) [
  | inl y ↦ (x, rw (sticky_candidate, y), (str_eq_iff x.id (b ∷ id)).0 y)
  | inr n ↦ rw (sticky_candidate, n) (sticky_candidate-found (b ∷ id) c xs ne e (later i n))
]
  where
    later : In c (x ∷ xs) → str_eq x.id (b ∷ id) ≡ false → In c xs
    later (inl q) n =
        absurd (cc (n, (str_eq_iff x.id (b ∷ id)).1 (ap (λ (y : Record). y.id) q ∙ e)))
    later (inr j) n = j

pub choose-sticky :
    (allow : Option (Record → Bool)) (now : Time) (s : Service) (q : Record)
    → s.rotation_strategy ≡ sticky
    → s.sticky_account_id ≢ []
    → lookup s.sticky_account_id s.records ≡ some q
    → q.id ≡ s.sticky_account_id
    → is_candidate allow now q ≡ true
    → (r : Record) × ((choose allow now [] s).1 ≡ ok r) × (r.id ≡ s.sticky_account_id)
unfolding choose preferred_candidate rotate
choose-sticky allow now s q st ne e i c = go (candidates allow now s.records) refl (
    sticky_candidate-found s.sticky_account_id (clone_record q) (candidates allow now s.records) ne
      (clone_record-id q ∙ i)
      (map-In clone_record q _ (
        keep-In (is_candidate allow now) q (values s.records)
          (lookup-In s.sticky_account_id s.records q e) c)))
  where
    go :
        (cs : List Record)
        → candidates allow now s.records ≡ cs
        → ((d : Record) × (sticky_candidate s.sticky_account_id (candidates allow now s.records)
              ≡ some d)
            × (d.id ≡ s.sticky_account_id))
        → (r : Record) × ((choose allow now [] s).1 ≡ ok r) × (r.id ≡ s.sticky_account_id)
    go [] f (d, g, j) = absurd (ground (arith, rw (f, sticky_candidate) at g))
    go (x ∷ xs) f (d, g, j) =
        (clone_record d, rw (choose, f, st, rotate, (rw f at g)), clone_record-id d ∙ j)
