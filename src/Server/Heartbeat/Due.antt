-- ===== src/Server/Heartbeat/Due.antt =====
-- Which monitors `claimDue` of internal/server/heartbeat.go starts.
use codex_model_tester.Base.{
  ◌≤◌, ◌≡◌, subst, ◌↔◌, ◌⊎◌, inl, inr, true, false, not, ◌&&◌, some, [], ◌∷◌, arith, Str, Dict,
  str_eq, str_eq_iff, str_eq_refl, lookup, lookup-insert, is_missing, IsMap, In, Bool-cases,
}
use codex_model_tester.Accounts.Types.{Time}
use codex_model_tester.Accounts.Rotation.Sorting.{sort_func-In, In-sort_func}
use codex_model_tester.Server.Monitor.{HeartbeatMonitor, HeartbeatManager}
use codex_model_tester.Server.Claims.{
  by_next_run, is_running, claim_each, claim_due, mark_running, is_due,
}

-- A monitor that may start.
abbrev pub IsFree : Time → HeartbeatManager → Str → HeartbeatMonitor → Type 0
IsFree now m id b = (is_running id m ≡ false) × (b.enabled ≡ true) × (b.next_run_at ≤ now)

unmarked :
    (now : Time) (m : HeartbeatManager) (j id : Str) (b : HeartbeatMonitor)
    → IsFree now (mark_running j m) id b
    → IsFree now m id b
unmarked now m j id b h = ground (arith, lookup-insert j id true m.running)

IsFree-of :
    (now : Time) (m : HeartbeatManager) (j : Str) (c : HeartbeatMonitor)
    → (c.enabled && not (is_running j m) && is_due now c) ≡ true
    → IsFree now m j c
IsFree-of now m j c e = ground arith

-- The monitors behind the first one.
claimed_behind :
    (now : Time) (m : HeartbeatManager) (j : Str) (c b : HeartbeatMonitor)
    (d : Dict HeartbeatMonitor)
    → is_missing (lookup j d) ≡ true
    → (id : Str) × (lookup id d ≡ some b) × IsFree now m id b
    → (id : Str) × (lookup id ((j, c) ∷ d) ≡ some b) × IsFree now m id b
unfolding lookup
claimed_behind now m j c b d h (id, e, f) = (id, ground (arith, str_eq_iff j id), f)

-- The first monitor, or one behind it.
claimed_here :
    (now : Time) (m : HeartbeatManager) (j : Str) (c b : HeartbeatMonitor)
    (d : Dict HeartbeatMonitor)
    → is_missing (lookup j d) ≡ true
    → (c.enabled && not (is_running j m) && is_due now c) ≡ true
    → (c ≡ b) ⊎ ((id : Str) × (lookup id d ≡ some b) × IsFree now (mark_running j m) id b)
    → (id : Str) × (lookup id ((j, c) ∷ d) ≡ some b) × IsFree now m id b
unfolding lookup
claimed_here now m j c b d h e (inl w) =
    (j, ground (arith, str_eq_refl j), subst (IsFree now m j) w (IsFree-of now m j c e))
claimed_here now m j c b d h e (inr (id, k, f)) =
    claimed_behind now m j c b d h (id, k, unmarked now m j id b f)

claim_each-In :
    (now : Time) (b : HeartbeatMonitor) (d : Dict HeartbeatMonitor) (m : HeartbeatManager)
    → IsMap d
    → In b (claim_each now d m).1
    → (id : Str) × (lookup id d ≡ some b) × IsFree now m id b
unfolding claim_each
claim_each-In now b [] m h i = absurd i
claim_each-In now b ((j, c) ∷ d) m h i =
    elim (Bool-cases (c.enabled && not (is_running j m) && is_due now c)) [
      | inl e ↦ claimed_here now m j c b d h.0 e (elim (rw e at i) [
        | inl w ↦ inl w
        | inr k ↦ inr (claim_each-In now b d (mark_running j m) h.1 k)
      ])
      | inr e ↦ claimed_behind now m j c b d h.0 (claim_each-In now b d m h.1 (rw e at i))
    ]

claim_due-In :
    (now : Time) (b : HeartbeatMonitor) (m : HeartbeatManager)
    → IsMap m.monitors
    → In b (claim_due now m).1
    → (id : Str) × (lookup id m.monitors ≡ some b) × IsFree now m id b
unfolding claim_due
claim_due-In now b m h i =
    claim_each-In now b m.monitors m h
      (sort_func-In by_next_run b (claim_each now m.monitors m).1 i)

marked :
    (now : Time) (m : HeartbeatManager) (j id : Str) (b : HeartbeatMonitor)
    → str_eq j id ≡ false
    → IsFree now m id b
    → IsFree now (mark_running j m) id b
marked now m j id b e h = ground (arith, lookup-insert j id true m.running)

claimable-IsFree :
    (now : Time) (m : HeartbeatManager) (j : Str) (c : HeartbeatMonitor)
    → IsFree now m j c
    → (c.enabled && not (is_running j m) && is_due now c) ≡ true
claimable-IsFree now m j c h = ground arith

In-claim_each :
    (now : Time) (id : Str) (b : HeartbeatMonitor) (d : Dict HeartbeatMonitor)
    (m : HeartbeatManager)
    → lookup id d ≡ some b
    → IsFree now m id b
    → In b (claim_each now d m).1
unfolding claim_each lookup
In-claim_each now id b [] m e h = cc
In-claim_each now id b ((j, c) ∷ d) m e h = ground (
  arith,
  str_eq_iff j id,
  claimable-IsFree now m id c,
  marked now m j id b,
  In-claim_each now id b d m,
  In-claim_each now id b d (mark_running j m),
)

In-claim_due :
    (now : Time) (id : Str) (b : HeartbeatMonitor) (m : HeartbeatManager)
    → lookup id m.monitors ≡ some b
    → IsFree now m id b
    → In b (claim_due now m).1
unfolding claim_due
In-claim_due now id b m e h =
    In-sort_func by_next_run b (claim_each now m.monitors m).1
      (In-claim_each now id b m.monitors m e h)

-- In a map of monitors, `claimDue` starts exactly those that are stored under some ID, are
-- enabled, do not run under it, and whose next run is not after the given time.
pub claim_due_iff :
    (now : Time) (b : HeartbeatMonitor) (m : HeartbeatManager)
    → IsMap m.monitors
    → In b (claim_due now m).1 ↔ (
        (id : Str) × (lookup id m.monitors ≡ some b)
        × (is_running id m ≡ false)
        × (b.enabled ≡ true)
        × (b.next_run_at ≤ now))
claim_due_iff now b m h = (
  λ i. let (id, e, r) = claim_due-In now b m h i in (id, e, r.0, r.1, r.2),
  λ (id, e, r, n, t). In-claim_due now id b m e (r, n, t),
)
