-- ===== src/DeviceLogin/Final.antt =====
-- What later steps do to a decided login of internal/devicelogin/service.go.
use codex_model_tester.Base.{
  All, Bool, Bool-cases, Dict, List, Option, Str, [], arith, bytes, erase, false, filter_option,
  get_elem?, inl, inr, is_some, lookup, lookup-erase, lookup-keep_values, none, not, refl, some,
  str_eq, str_eq_iff, subst, suc, true, ℕ, ◌++◌, ◌∙◌, ◌∷◌, ◌≡◌, ◌⊎◌,
}
use codex_model_tester.DeviceLogin.{
  PendingLogin, returned, Goroutine, DeviceLoginService, DeviceCodeResponse,
  new_device_login_service, is_pending, set_login, put_found, set_status, set_stage, cancel,
  is_over, delete_expired,
}
use codex_model_tester.DeviceLogin.Events.{
  Event, started, ticked, settled, finished, cancelled, swept, Setting, step, run, starts,
}
use codex_model_tester.DeviceLogin.Moves.{
  is_live, Move, stays, stores, stops, tick-Move, settle-Move, finish-Move,
}
use codex_model_tester.DeviceLogin.Outcomes.{
  live, IsDecided, IsSingle, lookup-put_found, live-returned,
}
use codex_model_tester.DeviceLogin.Steps.{started-lookup, step-IsSingle, once-IsSingle}
use codex_model_tester.Accounts.Types.{Time}
use codex_model_tester.Accounts.Store.{Service}

-- The login as it is, or none.
abbrev pub IsKept : PendingLogin → Option PendingLogin → Type 0
IsKept l found = (found ≡ some l) ⊎ (found ≡ none)

decided-stopped :
    (l : PendingLogin) (found : Option PendingLogin) (n : ℕ)
    → is_pending l.login.status ≡ false
    → IsDecided found (suc n)
    → IsKept l found
    → found ≡ none
decided-stopped l none n p d k = refl
decided-stopped l (some m) n p d k = ground arith

put_none :
    (id : Str) (f : PendingLogin → PendingLogin) (found : Option PendingLogin)
    (m : Dict PendingLogin)
    → found ≡ none
    → lookup id m ≡ none
    → lookup id (put_found id f found m) ≡ none
put_none id f none m e h = h
put_none id f (some l) m e h = cc

put_none-IsKept :
    (l : PendingLogin) (id j : Str) (f : PendingLogin → PendingLogin) (s : DeviceLoginService)
    → str_eq j id ≡ true
    → lookup id s.logins ≡ none
    → IsKept l (lookup id (put_found j f (lookup j s.logins) s.logins))
put_none-IsKept l id j f s e n =
    let q : id ≡ j = ground (arith, str_eq_iff j id) in
    subst (λ x. IsKept l (lookup id (put_found x f (lookup x s.logins) s.logins))) q
      (inr (put_none id f (lookup id s.logins) s.logins n n))

-- A goroutine sets the status of its login: of another login, or of one that is not there.
put_found-IsKept :
    (l : PendingLogin) (id : Str) (i : ℕ) (g : Goroutine) (f : PendingLogin → PendingLogin)
    (s : DeviceLoginService)
    → is_pending l.login.status ≡ false
    → get_elem? s.polling i ≡ some g
    → is_live g.stage ≡ true
    → IsSingle id s
    → IsKept l (lookup id s.logins)
    → IsKept l (lookup id (put_found g.login_id f (lookup g.login_id s.logins) s.logins))
put_found-IsKept l id i g f s p e v h k = elim (Bool-cases (str_eq g.login_id id)) [
  | inl d ↦
      let n = live id (set_stage i returned s.polling) in
      let some_live : live id s.polling ≡ suc n = live-returned id i s.polling g e v ∙ rw d refl in
      put_none-IsKept l id g.login_id f s d
        (decided-stopped l (lookup id s.logins) n p (rw some_live at h.decided) k)
  | inr d ↦ rw (lookup-put_found g.login_id id f (lookup g.login_id s.logins) s.logins refl d) k
]

Move-IsKept :
    (l : PendingLogin) (id : Str) (s : DeviceLoginService) {s' : DeviceLoginService}
    → Move s s'
    → is_pending l.login.status ≡ false
    → IsSingle id s
    → IsKept l (lookup id s.logins)
    → IsKept l (lookup id s'.logins)
unfolding set_status
Move-IsKept l id s stays p h k = k
Move-IsKept l id s (stores i g (accounts, r) e v) p h k = k
Move-IsKept l id s (stops i g only_pending status message e v) p h k =
    put_found-IsKept l id i g (set_login only_pending status message) s p e v h k

erased-IsKept :
    (l : PendingLogin) (id j : Str) (m : Dict PendingLogin)
    → IsKept l (lookup id m)
    → IsKept l (lookup id (erase j m))
erased-IsKept l id j m k =
    rw (lookup-erase j id m)
      (elim (Bool-cases (str_eq j id)) [ inl e ↦ rw e (inr refl) | inr e ↦ rw e k ])

cancel-IsKept :
    (l : PendingLogin) (id j : Str) (s : DeviceLoginService)
    → IsKept l (lookup id s.logins)
    → IsKept l (lookup id (cancel j s).0.logins)
unfolding cancel
cancel-IsKept l id j s k = elim (Bool-cases (is_some (lookup j s.logins))) [
  | inl e ↦ rw (e, cancel) (erased-IsKept l id j s.logins k)
  | inr e ↦ rw (e, cancel) k
]

filtered-IsKept :
    (l : PendingLogin) (p : PendingLogin → Bool) (found : Option PendingLogin)
    → IsKept l found
    → IsKept l (filter_option p found)
filtered-IsKept l p none k = inr refl
filtered-IsKept l p (some m) k = ground arith

-- A step keeps a decided login, unless it starts one under its ID.
step-IsKept :
    (c : Setting) (l : PendingLogin) (id : Str) (e : Event) (s : DeviceLoginService)
    → IsSingle id s
    → is_pending l.login.status ≡ false
    → starts c id e ≡ false
    → IsKept l (lookup id s.logins)
    → IsKept l (lookup id (step c e s).logins)
unfolding step
step-IsKept c l id (started resp now) s h p n k = rw (started-lookup c id resp now s n) k
step-IsKept c l id (ticked env answer i) s h p n k =
    Move-IsKept l id s (tick-Move env i answer s) p h k
step-IsKept c l id (settled i) s h p n k = Move-IsKept l id s (settle-Move c.describe i s) p h k
step-IsKept c l id (finished i) s h p n k = Move-IsKept l id s (finish-Move i s) p h k
step-IsKept c l id (cancelled j) s h p n k = cancel-IsKept l id j s k
step-IsKept c l id (swept now) s h p n k =
    unfold delete_expired in
    rw (lookup-keep_values (λ l. not (is_over now l)) id s.logins h.keyed)
      (filtered-IsKept l (λ l. not (is_over now l)) (lookup id s.logins) k)

run-IsKept :
    (c : Setting) (l : PendingLogin) (id : Str) (es : List Event) (s : DeviceLoginService)
    → IsSingle id s
    → is_pending l.login.status ≡ false
    → All (λ e. starts c id e ≡ false) es
    → IsKept l (lookup id s.logins)
    → IsKept l (lookup id (run c es s).logins)
unfolding run
run-IsKept c l id [] s h p n k = k
run-IsKept c l id (e ∷ es) s h p n k =
    run-IsKept c l id es (step c e s) (step-IsSingle c id e s n.0 h) p n.1
      (step-IsKept c l id e s h p n.0 k)

-- The service, new at first, after a start of a login and what came before and since.
abbrev pub after_start :
    Setting → Service → ℕ → List Event → DeviceCodeResponse → Time → List Event → DeviceLoginService
after_start c accounts timeout before resp now since =
    run c since
      (step c (started resp now) (run c before (new_device_login_service accounts timeout)))

-- In any history from a new service in which one login is started under an ID, once the login
-- is no longer pending it stays exactly as it is or is gone, whatever calls and steps of
-- goroutines come later, as long as no other start, before or after, is under its ID.
pub run-final :
    (c : Setting) (accounts : Service) (timeout : ℕ) (before since later : List Event)
    (resp : DeviceCodeResponse) (now : Time) (l : PendingLogin)
    → All (λ e. starts c (bytes "login_" ++ c.format now) e ≡ false) before
    → All (λ e. starts c (bytes "login_" ++ c.format now) e ≡ false) since
    → All (λ e. starts c (bytes "login_" ++ c.format now) e ≡ false) later
    → lookup
        (bytes "login_" ++ c.format now)
        (after_start c accounts timeout before resp now since).logins
      ≡ some l
    → is_pending l.login.status ≡ false
    → (lookup
          (bytes "login_" ++ c.format now)
          (run c later (after_start c accounts timeout before resp now since)).logins
        ≡ some l)
      ⊎ (lookup
            (bytes "login_" ++ c.format now)
            (run c later (after_start c accounts timeout before resp now since)).logins
          ≡ none)
run-final c accounts timeout before since later resp now l n m o e p =
    run-IsKept c l (bytes "login_" ++ c.format now) later
      (after_start c accounts timeout before resp now since)
      (once-IsSingle c accounts timeout before since resp now n m) p o (inl e)
