-- ===== src/AccountManager/Ready.antt =====
-- What EnsureReady of internal/accountmanager/manager.go returns.
use codex_model_tester.Base.{Str, arith, inl, inr, refl, ℕ, ◌≡◌, ◌⊎◌}
use codex_model_tester.AccountManager.{
  done, World, get_record, Check, ready, stale, broken, check, after_second, after_first,
  ensure_ready,
}
use codex_model_tester.Accounts.Types.{Record}
use codex_model_tester.Accounts.Store.{Env, Service}
use codex_model_tester.AccountManager.Usable.{IsUsable, Means, check_reply-Means}
use codex_model_tester.AccountManager.Refreshed.{
  second_check, WasRefreshed, refresh_locked-WasRefreshed,
}

after_second-done :
    (w : World) (id : Str) (c : Check) (r : Record) (s s' : Service)
    → (second_check w id s).1 ≡ c
    → Means w.refresh_skew (w.at 1).now c
    → after_second w ((second_check w id s).0, c) ≡ (s', done r)
    → IsUsable w.refresh_skew (w.at 1).now r ⊎ WasRefreshed w id s r
unfolding after_second
after_second-done w id (ready q) r s s' e m h = inl (ground arith)
after_second-done w id (broken x) r s s' e m h = cc
after_second-done w id (stale q) r s s' e m h =
    inr (refresh_locked-WasRefreshed w id q r s s' e m.0 m.1 h)

check-Means :
    (skew : ℕ) (env : Env) (id : Str) (s : Service) → Means skew env.now (check skew env id s).1
unfolding check
check-Means skew env id s = check_reply-Means skew env.now (get_record env id s)

after_first-done :
    (w : World) (id : Str) (c : Check) (r : Record) (s s' : Service)
    → Means w.refresh_skew (w.at 0).now c
    → after_first w id ((check w.refresh_skew (w.at 0) id s).0, c) ≡ (s', done r)
    → IsUsable w.refresh_skew (w.at 0).now r
      ⊎ (IsUsable w.refresh_skew (w.at 1).now r ⊎ WasRefreshed w id s r)
unfolding after_first
after_first-done w id (ready q) r s s' m h = inl (ground arith)
after_first-done w id (broken e) r s s' m h = cc
after_first-done w id (stale q) r s s' m h = inr (
    after_second-done w id (second_check w id s).1 r s s' refl
      (check-Means w.refresh_skew (w.at 1) id (w.others 1 (check w.refresh_skew (w.at 0) id s).0))
      h)

-- An account that `EnsureReady` returns is not disabled and has an access token that outlives
-- the skew at the first or the second check; or the second check of the ID found a record that
-- is not disabled, has an access token and whose token did not outlive the skew, the upstream
-- granted a new token for it, which was stored under that record's ID, and the ID and the token
-- returned are those that the service held under it when it was read again.
pub ensure_ready-done :
    (w : World) (id : Str) (r : Record) (s s' : Service)
    → ensure_ready w id s ≡ (s', done r)
    → IsUsable w.refresh_skew (w.at 0).now r
      ⊎ (IsUsable w.refresh_skew (w.at 1).now r ⊎ WasRefreshed w id s r)
unfolding ensure_ready
ensure_ready-done w id r s s' h =
    after_first-done w id (check w.refresh_skew (w.at 0) id s).1 r s s'
      (check-Means w.refresh_skew (w.at 0) id s) h
