-- ===== src/DeviceLogin/Stored.antt =====
-- The steps of internal/devicelogin/service.go that make a login ready.
use codex_model_tester.Base.{
  Bool-cases, Dict, List, Option, Option-cases, Str, [], arith, false, get_elem?, inl, inr, insert,
  is_empty, lookup, lookup-insert, none, refl, some, str_eq, str_eq_iff, str_eq_refl, subst, suc,
  sym, trim_space, zero, ℕ, ◌∙◌, ◌∷◌, ◌≡◌,
}
use codex_model_tester.DeviceLogin.{
  DeviceLoginStatus, login_ready, login_error, PendingLogin, Stage, polls, stored, returned,
  Goroutine, DeviceLoginService, set_login, put_found, set_status, set_stage, PollAnswer,
  poll_error, exchange_error, no_result, exchanged, is_still_pending, after_upsert, tick_login,
  tick, settle_goroutine, settle,
}
use codex_model_tester.DeviceLogin.Outcomes.{lookup-put_found}
use codex_model_tester.Accounts.Types.{OauthToken, Record}
use codex_model_tester.Accounts.Store.{Error, ok, err, Env, Service, Outcome}
use codex_model_tester.Accounts.Service.{upsert_from_token}

-- A login whose status is the given one.
abbrev pub HasStatus : DeviceLoginStatus → Option PendingLogin → Type 0
HasStatus status none = ⊥
HasStatus status (some l) = l.login.status ≡ status

-- An answer with which an account was stored.
abbrev pub WasStored : Env → PollAnswer → DeviceLoginService → Service → Type 0
WasStored env a s accounts =
    (token : OauthToken) × (account_id : Str) × (r : Record) × (a ≡ exchanged token account_id)
    × (is_empty (trim_space account_id) ≡ false)
    × (upsert_from_token env account_id token s.accounts ≡ (accounts, ok r))

put_same :
    (id : Str) (l : PendingLogin) (m : Dict PendingLogin) → lookup id (insert id l m) ≡ some l
put_same id l m = ground (arith, lookup-insert id id l m, str_eq_refl id)

failed-status :
    (id message : Str) (found : Option PendingLogin) (s : DeviceLoginService)
    → lookup id s.logins ≡ found
    → HasStatus login_ready
        (lookup id (put_found id (set_login false login_error message) found s.logins))
    → ⊥
failed-status id message none s e h = subst (HasStatus login_ready) e h
failed-status id message (some l) s e h =
    let w = set_login false login_error message l in
    let k : HasStatus login_ready (some w) =
      subst (HasStatus login_ready) (put_same id w s.logins) h in
    cc

other-status :
    (id j : Str) (f : PendingLogin → PendingLogin) (t : DeviceLoginService)
    → str_eq j id ≡ false
    → (HasStatus login_ready (lookup id t.logins) → ⊥)
    → HasStatus login_ready (lookup id (put_found j f (lookup j t.logins) t.logins))
    → ⊥
other-status id j f t d n h =
    n (rw (lookup-put_found j id f (lookup j t.logins) t.logins refl d) at h)

-- No failure makes a login ready.
put-failed :
    (id j message : Str) (t : DeviceLoginService)
    → (HasStatus login_ready (lookup id t.logins) → ⊥)
    → HasStatus login_ready
        (lookup id (put_found j (set_login false login_error message) (lookup j t.logins) t.logins))
    → ⊥
put-failed id j message t n h = elim (Bool-cases (str_eq j id)) [
  | inl d ↦
      let same : id ≡ j = ground (arith, str_eq_iff j id) in
      failed-status j message (lookup j t.logins) t refl (
        subst
          (λ x. HasStatus login_ready (
            lookup x
              (put_found j (set_login false login_error message) (lookup j t.logins) t.logins)))
          same h)
  | inr d ↦ other-status id j (set_login false login_error message) t d n h
]

-- Only the storing of an account that succeeded leads to `ready`.
settled-ready :
    (describe : Error → Str) (i : ℕ) (id j : Str) (stage : Stage) (t : DeviceLoginService)
    → (HasStatus login_ready (lookup id t.logins) → ⊥)
    → HasStatus login_ready (lookup id (settle_goroutine describe i stage j t).logins)
    → (r : Record) × (stage ≡ stored (ok r))
unfolding set_status
settled-ready describe i id j polls t n h = absurd (n h)
settled-ready describe i id j returned t n h = absurd (n h)
settled-ready describe i id j (stored (ok r)) t n h = (r, refl)
settled-ready describe i id j (stored (err e)) t n h = absurd (put-failed id j (describe e) t n h)

-- The goroutine at this index, after it polled.
get-set_stage :
    (i : ℕ) (stage : Stage) (gs : List Goroutine) (g : Goroutine)
    → get_elem? gs i ≡ some g
    → get_elem? (set_stage i stage gs) i ≡ some (record g { stage = stage })
unfolding set_stage
get-set_stage i stage [] g e = cc
get-set_stage zero stage (h ∷ gs) g e = cc
get-set_stage (suc i) stage (h ∷ gs) g e = get-set_stage i stage gs g e

after_upsert-WasStored :
    (env : Env) (i : ℕ) (token : OauthToken) (account_id : Str) (o : Outcome Record)
    (g h : Goroutine) (r : Record) (s : DeviceLoginService)
    → is_empty (trim_space account_id) ≡ false
    → upsert_from_token env account_id token s.accounts ≡ o
    → get_elem? s.polling i ≡ some g
    → get_elem? (after_upsert i o s).polling i ≡ some h
    → h.stage ≡ stored (ok r)
    → WasStored env (exchanged token account_id) s (after_upsert i o s).accounts
after_upsert-WasStored env i token account_id (accounts, result) g h r s b u e f q =
    let same : result ≡ ok r = cc (q, f, get-set_stage i (stored result) s.polling g e) in
    (token, account_id, r, refl, b, rw same at u)

waiting_not_stored :
    (g h : Goroutine) (r : Record) → some g ≡ some h → g.stage ≡ polls → h.stage ≡ stored (ok r) → ⊥
waiting_not_stored g h r e p q = cc

stopped_not_stored :
    (i : ℕ) (gs : List Goroutine) (g h : Goroutine) (r : Record)
    → get_elem? gs i ≡ some g
    → get_elem? (set_stage i returned gs) i ≡ some h
    → h.stage ≡ stored (ok r)
    → ⊥
stopped_not_stored i gs g h r e f q =
    let same : some h ≡ some (record g { stage = returned }) =
      sym f ∙ get-set_stage i returned gs g e in
    cc

-- A tick that leaves its goroutine behind the storing of an account.
ticked-WasStored :
    (env : Env) (i : ℕ) (a : PollAnswer) (g h : Goroutine) (r : Record) (s : DeviceLoginService)
    → get_elem? s.polling i ≡ some g
    → g.stage ≡ polls
    → get_elem? (tick_login env i g.login_id a s).polling i ≡ some h
    → h.stage ≡ stored (ok r)
    → WasStored env a s (tick_login env i g.login_id a s).accounts
unfolding tick_login set_status
ticked-WasStored env i (poll_error text) g h r s e p f q =
    elim (Bool-cases (is_still_pending text)) [
      | inl b ↦ absurd (waiting_not_stored g h r (cc (e, rw b at f)) p q)
      | inr b ↦ absurd (stopped_not_stored i s.polling g h r e (rw b at f) q)
    ]
ticked-WasStored env i no_result g h r s e p f q = absurd (waiting_not_stored g h r (cc (e, f)) p q)
ticked-WasStored env i (exchange_error text) g h r s e p f q =
    absurd (stopped_not_stored i s.polling g h r e f q)
ticked-WasStored env i (exchanged token account_id) g h r s e p f q =
    elim (Bool-cases (is_empty (trim_space account_id))) [
      | inl b ↦ absurd (stopped_not_stored i s.polling g h r e (rw b at f) q)
      | inr b ↦ rw b (
          after_upsert-WasStored env i token account_id
            (upsert_from_token env account_id token s.accounts) g h r s b refl e (rw b at f) q)
    ]

tick_goroutine-WasStored :
    (env : Env) (i : ℕ) (a : PollAnswer) (g h : Goroutine) (r : Record) (s : DeviceLoginService)
    → get_elem? s.polling i ≡ some g
    → g.stage ≡ polls
    → get_elem? (tick env i a s).polling i ≡ some h
    → h.stage ≡ stored (ok r)
    → WasStored env a s (tick env i a s).accounts
unfolding tick
tick_goroutine-WasStored env i a g h r s e p f q =
    rw (e, p, tick) (ticked-WasStored env i a g h r s e p (rw (e, p, tick) at f) q)

-- When the settling of a goroutine's last tick makes a login ready that was not, whatever
-- others did in between that left where this goroutine stands, then the tick, made while the
-- goroutine was polling, had an exchange that gave a token and an account ID that is not blank,
-- and storing them as an account succeeded; the accounts that the tick left are those that
-- storing left.
pub tick-ready :
    (env : Env) (describe : Error → Str) (id : Str) (i : ℕ) (a : PollAnswer) (g : Goroutine)
    (s t : DeviceLoginService)
    → get_elem? s.polling i ≡ some g
    → g.stage ≡ polls
    → get_elem? t.polling i ≡ get_elem? (tick env i a s).polling i
    → (HasStatus login_ready (lookup id t.logins) → ⊥)
    → HasStatus login_ready (lookup id (settle describe i t).logins)
    → WasStored env a s (tick env i a s).accounts
unfolding settle
tick-ready env describe id i a g s t e p same n ready =
    elim (Option-cases (get_elem? t.polling i)) [
      | inl f ↦ absurd (n (rw (f, settle) at ready))
      | inr (h, f) ↦
          let (r, q) =
            settled-ready describe i id h.login_id h.stage t n (rw (f, settle) at ready) in
          tick_goroutine-WasStored env i a g h r s e p (cc (same, f)) q
    ]
