-- ===== src/DeviceLogin/Moves.antt =====
-- What one step of a goroutine of internal/devicelogin/service.go can do.
use codex_model_tester.Base.{
  Bool, Bool-cases, Option-cases, Str, [], bytes, false, get_elem?, inl, inr, is_empty, refl, some,
  trim_space, true, ℕ, ◌≡◌,
}
use codex_model_tester.DeviceLogin.{
  DeviceLoginStatus, login_ready, login_expired, login_error, Stage, polls, stored, returned,
  Goroutine, DeviceLoginService, set_status, stop, PollAnswer, poll_error, exchange_error,
  no_result, exchanged, is_still_pending, after_upsert, tick_login, tick_goroutine, tick,
  settle_goroutine, settle, finish_goroutine, finish,
}
use codex_model_tester.Accounts.Types.{Record}
use codex_model_tester.Accounts.Store.{Error, ok, err, Env, Outcome}
use codex_model_tester.Accounts.Service.{upsert_from_token}

abbrev pub is_live : Stage → Bool
is_live returned = false
is_live _ = true

-- Nothing; or, before a tick, the storing of an account; or the last step, which sets the status of the
-- goroutine's login.
pub data Move (s : DeviceLoginService) : DeviceLoginService → Type 0 where
  stays : Move s s
  stores :
      (i : ℕ) (g : Goroutine) (o : Outcome Record)
      → get_elem? s.polling i ≡ some g
      → is_live g.stage ≡ true
      → Move s (after_upsert i o s)
  stops :
      (i : ℕ) (g : Goroutine) (only_pending : Bool) (status : DeviceLoginStatus) (message : Str)
      → get_elem? s.polling i ≡ some g
      → is_live g.stage ≡ true
      → Move s (stop i (set_status g.login_id only_pending status message s))

ticked-Move :
    (env : Env) (i : ℕ) (a : PollAnswer) (g : Goroutine) (s : DeviceLoginService)
    → get_elem? s.polling i ≡ some g
    → is_live g.stage ≡ true
    → Move s (tick_login env i g.login_id a s)
unfolding tick_login
ticked-Move env i (poll_error text) g s e l = elim (Bool-cases (is_still_pending text)) [
  | inl p ↦ rw p stays
  | inr p ↦ rw p (stops i g false login_error text e l)
]
ticked-Move env i no_result g s e l = stays
ticked-Move env i (exchange_error text) g s e l = stops i g false login_error text e l
ticked-Move env i (exchanged token account_id) g s e l =
    elim (Bool-cases (is_empty (trim_space account_id))) [
      | inl p ↦
          rw p (stops i g false login_error (bytes "oauth exchange did not return account_id") e l)
      | inr p ↦ rw p (stores i g (upsert_from_token env account_id token s.accounts) e l)
    ]

tick_goroutine-Move :
    (env : Env) (i : ℕ) (a : PollAnswer) (g : Goroutine) (stage : Stage) (s : DeviceLoginService)
    → get_elem? s.polling i ≡ some g
    → g.stage ≡ stage
    → Move s (tick_goroutine env i a stage g.login_id s)
tick_goroutine-Move env i a g polls s e h = ticked-Move env i a g s e (rw h refl)
tick_goroutine-Move env i a g (stored r) s e h = stays
tick_goroutine-Move env i a g returned s e h = stays

settle_goroutine-Move :
    (describe : Error → Str) (i : ℕ) (g : Goroutine) (stage : Stage) (s : DeviceLoginService)
    → get_elem? s.polling i ≡ some g
    → g.stage ≡ stage
    → Move s (settle_goroutine describe i stage g.login_id s)
settle_goroutine-Move describe i g polls s e h = stays
settle_goroutine-Move describe i g returned s e h = stays
settle_goroutine-Move describe i g (stored (ok r)) s e h =
    stops i g false login_ready [] e (rw h refl)
settle_goroutine-Move describe i g (stored (err x)) s e h =
    stops i g false login_error (describe x) e (rw h refl)

finish_goroutine-Move :
    (i : ℕ) (g : Goroutine) (stage : Stage) (s : DeviceLoginService)
    → get_elem? s.polling i ≡ some g
    → g.stage ≡ stage
    → Move s (finish_goroutine i stage g.login_id s)
finish_goroutine-Move i g polls s e h =
    stops i g true login_expired (bytes "device login expired") e (rw h refl)
finish_goroutine-Move i g (stored r) s e h = stays
finish_goroutine-Move i g returned s e h = stays

pub tick-Move :
    (env : Env) (i : ℕ) (a : PollAnswer) (s : DeviceLoginService) → Move s (tick env i a s)
unfolding tick
tick-Move env i a s = elim (Option-cases (get_elem? s.polling i)) [
  | inl e ↦ rw (e, tick) stays
  | inr (g, e) ↦ rw (e, tick) (tick_goroutine-Move env i a g g.stage s e refl)
]

pub settle-Move :
    (describe : Error → Str) (i : ℕ) (s : DeviceLoginService) → Move s (settle describe i s)
unfolding settle
settle-Move describe i s = elim (Option-cases (get_elem? s.polling i)) [
  | inl e ↦ rw (e, settle) stays
  | inr (g, e) ↦ rw (e, settle) (settle_goroutine-Move describe i g g.stage s e refl)
]

pub finish-Move : (i : ℕ) (s : DeviceLoginService) → Move s (finish i s)
unfolding finish
finish-Move i s = elim (Option-cases (get_elem? s.polling i)) [
  | inl e ↦ rw (e, finish) stays
  | inr (g, e) ↦ rw (e, finish) (finish_goroutine-Move i g g.stage s e refl)
]
