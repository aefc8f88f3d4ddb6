-- ===== src/DeviceLogin/Steps.antt =====
-- How the events of internal/devicelogin/service.go keep what is known of a login's goroutines.
use codex_model_tester.Base.{
  All, Bool, Bool-cases, Dict, IsMap, List, Option, Str, [], arith, bytes, erase, erase-IsMap,
  false, filter_option, inl, inr, insert, insert-IsMap, is_some, keep_values-IsMap, lookup,
  lookup-erase, lookup-insert, lookup-keep_values, none, not, refl, some, str_eq, str_eq_refl, ℕ,
  ◌++◌, ◌∙◌, ◌∷◌, ◌≡◌,
}
use codex_model_tester.DeviceLogin.{
  PendingLogin, polls, Goroutine, DeviceLoginService, DeviceCodeResponse, new_device_login_service,
  new_login, start, cancel, is_over, delete_expired,
}
use codex_model_tester.DeviceLogin.Events.{
  Event, started, ticked, settled, finished, cancelled, swept, Setting, step, run, starts,
}
use codex_model_tester.DeviceLogin.Moves.{tick-Move, settle-Move, finish-Move}
use codex_model_tester.DeviceLogin.Outcomes.{
  one, live, IsDecided, IsSingle, live-append, Move-IsSingle, IsIdle, Move-IsIdle,
}
use codex_model_tester.Accounts.Types.{Time}
use codex_model_tester.Accounts.Store.{Service}

erased-IsDecided :
    (id j : Str) (m : Dict PendingLogin) (n : ℕ)
    → IsDecided (lookup id m) n
    → IsDecided (lookup id (erase j m)) n
erased-IsDecided id j m n h =
    rw (lookup-erase j id m) (elim (Bool-cases (str_eq j id)) [ inl e ↦ rw e tt | inr e ↦ rw e h ])

filtered-IsDecided :
    (p : PendingLogin → Bool) (found : Option PendingLogin) (n : ℕ)
    → IsDecided found n
    → IsDecided (filter_option p found) n
filtered-IsDecided p none n h = tt
filtered-IsDecided p (some m) n h = elim (Bool-cases (p m)) [ inl e ↦ rw e h | inr e ↦ rw e tt ]

-- A start under another ID.
pub started-lookup :
    (c : Setting) (id : Str) (resp : DeviceCodeResponse) (now : Time) (s : DeviceLoginService)
    → starts c id (started resp now) ≡ false
    → lookup id (start c.format c.url resp now s).0.logins ≡ lookup id s.logins
unfolding start
started-lookup c id resp now s n =
    lookup-insert (bytes "login_" ++ c.format now) id (new_login c.format c.url s.timeout resp now)
      s.logins
    ∙ rw n refl

started-live :
    (c : Setting) (id : Str) (resp : DeviceCodeResponse) (now : Time) (s : DeviceLoginService)
    → starts c id (started resp now) ≡ false
    → live id (start c.format c.url resp now s).0.polling ≡ live id s.polling
unfolding start
started-live c id resp now s n =
    let g : Goroutine = record { login_id = bytes "login_" ++ c.format now; stage = polls } in
    let zero_more : one id g ≡ 0 = rw n refl in omega (arith, zero_more, live-append id s.polling g)

started-IsMap :
    (c : Setting) (resp : DeviceCodeResponse) (now : Time) (s : DeviceLoginService)
    → IsMap s.logins
    → IsMap (start c.format c.url resp now s).0.logins
unfolding start
started-IsMap c resp now s h =
    insert-IsMap (bytes "login_" ++ c.format now) (new_login c.format c.url s.timeout resp now)
      s.logins h

cancel-logins :
    (P : Dict PendingLogin → Type 0) (id : Str) (s : DeviceLoginService)
    → P s.logins
    → P (erase id s.logins)
    → P (cancel id s).0.logins
unfolding cancel
cancel-logins P id s h e = elim (Bool-cases (is_some (lookup id s.logins))) [
  | inl q ↦ rw (q, cancel) e
  | inr q ↦ rw (q, cancel) h
]

cancel-polling : (id : Str) (s : DeviceLoginService) → (cancel id s).0.polling ≡ s.polling
unfolding cancel
cancel-polling id s = elim (Bool-cases (is_some (lookup id s.logins))) [
  | inl q ↦ rw (q, cancel) refl
  | inr q ↦ rw (q, cancel) refl
]

step-IsIdle :
    (c : Setting) (id : Str) (e : Event) (s : DeviceLoginService)
    → starts c id e ≡ false
    → IsIdle id s
    → IsIdle id (step c e s)
unfolding step
step-IsIdle c id (started resp now) s n h = record {
  keyed = started-IsMap c resp now s h.keyed;
  none_live = started-live c id resp now s n ∙ h.none_live;
}
step-IsIdle c id (ticked env answer i) s n h = Move-IsIdle id s (tick-Move env i answer s) h
step-IsIdle c id (settled i) s n h = Move-IsIdle id s (settle-Move c.describe i s) h
step-IsIdle c id (finished i) s n h = Move-IsIdle id s (finish-Move i s) h
step-IsIdle c id (cancelled j) s n h = record {
  keyed = cancel-logins (λ m. IsMap m) j s h.keyed (erase-IsMap j s.logins h.keyed);
  none_live = rw (cancel-polling j s) h.none_live;
}
step-IsIdle c id (swept now) s n h =
    unfold delete_expired in
    record {
      keyed = keep_values-IsMap (λ l. not (is_over now l)) s.logins h.keyed;
      none_live = h.none_live;
    }

pub step-IsSingle :
    (c : Setting) (id : Str) (e : Event) (s : DeviceLoginService)
    → starts c id e ≡ false
    → IsSingle id s
    → IsSingle id (step c e s)
unfolding step
step-IsSingle c id (started resp now) s n h = record {
  keyed = started-IsMap c resp now s h.keyed;
  single = rw (started-live c id resp now s n) h.single;
  decided = rw (started-live c id resp now s n, started-lookup c id resp now s n) h.decided;
}
step-IsSingle c id (ticked env answer i) s n h = Move-IsSingle id s (tick-Move env i answer s) h
step-IsSingle c id (settled i) s n h = Move-IsSingle id s (settle-Move c.describe i s) h
step-IsSingle c id (finished i) s n h = Move-IsSingle id s (finish-Move i s) h
step-IsSingle c id (cancelled j) s n h = record {
  keyed = cancel-logins (λ m. IsMap m) j s h.keyed (erase-IsMap j s.logins h.keyed);
  single = rw (cancel-polling j s) h.single;
  decided = rw (cancel-polling j s) (
      cancel-logins (λ m. IsDecided (lookup id m) (live id s.polling)) j s h.decided
        (erased-IsDecided id j s.logins (live id s.polling) h.decided));
}
step-IsSingle c id (swept now) s n h =
    unfold delete_expired in
    record {
      keyed = keep_values-IsMap (λ l. not (is_over now l)) s.logins h.keyed;
      single = h.single;
      decided = rw (lookup-keep_values (λ l. not (is_over now l)) id s.logins h.keyed) (
          filtered-IsDecided (λ l. not (is_over now l)) (lookup id s.logins) (live id s.polling)
            h.decided);
    }

run-IsIdle :
    (c : Setting) (id : Str) (es : List Event) (s : DeviceLoginService)
    → All (λ e. starts c id e ≡ false) es
    → IsIdle id s
    → IsIdle id (run c es s)
unfolding run
run-IsIdle c id [] s n h = h
run-IsIdle c id (e ∷ es) s n h = run-IsIdle c id es (step c e s) n.1 (step-IsIdle c id e s n.0 h)

run-IsSingle :
    (c : Setting) (id : Str) (es : List Event) (s : DeviceLoginService)
    → All (λ e. starts c id e ≡ false) es
    → IsSingle id s
    → IsSingle id (run c es s)
unfolding run
run-IsSingle c id [] s n h = h
run-IsSingle c id (e ∷ es) s n h =
    run-IsSingle c id es (step c e s) n.1 (step-IsSingle c id e s n.0 h)

-- The start of the login, where no goroutine polls for it yet.
start-IsSingle :
    (c : Setting) (resp : DeviceCodeResponse) (now : Time) (s : DeviceLoginService)
    → IsIdle (bytes "login_" ++ c.format now) s
    → IsSingle (bytes "login_" ++ c.format now) (step c (started resp now) s)
unfolding step start new_login
start-IsSingle c resp now s h =
    let id = bytes "login_" ++ c.format now in
    let l = new_login c.format c.url s.timeout resp now in
    let g : Goroutine = record { login_id = id; stage = polls } in
    let one_more : one id g ≡ 1 = rw (str_eq_refl id) refl in
    let found : lookup id (insert id l s.logins) ≡ some l =
      lookup-insert id id l s.logins ∙ rw (str_eq_refl id) refl in
    record {
      keyed = insert-IsMap id l s.logins h.keyed;
      single = omega (arith, one_more, live-append id s.polling g, h.none_live);
      decided = rw found (inl refl);
    }

new-IsIdle :
    (accounts : Service) (timeout : ℕ) (id : Str)
    → IsIdle id (new_device_login_service accounts timeout)
unfolding new_device_login_service live
new-IsIdle accounts timeout id = record { keyed = tt; none_live = refl }

-- A history in which exactly one start is under the ID.
pub once-IsSingle :
    (c : Setting) (accounts : Service) (timeout : ℕ) (before since : List Event)
    (resp : DeviceCodeResponse) (now : Time)
    → All (λ e. starts c (bytes "login_" ++ c.format now) e ≡ false) before
    → All (λ e. starts c (bytes "login_" ++ c.format now) e ≡ false) since
    → IsSingle (bytes "login_" ++ c.format now) (
        run c since
          (step c (started resp now) (run c before (new_device_login_service accounts timeout))))
once-IsSingle c accounts timeout before since resp now n m =
    let id = bytes "login_" ++ c.format now in
    let s = run c before (new_device_login_service accounts timeout) in
    run-IsSingle c id since (step c (started resp now) s) m (
      start-IsSingle c resp now s (
        run-IsIdle c id before (new_device_login_service accounts timeout) n
          (new-IsIdle accounts timeout id)))
