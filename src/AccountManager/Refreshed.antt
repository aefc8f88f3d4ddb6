-- ===== src/AccountManager/Refreshed.antt =====
-- A result of EnsureReady, of internal/accountmanager/manager.go, that came from a refresh.
use codex_model_tester.Base.{
  Option, Option-cases, Str, ap, arith, inl, inr, lookup, none, refl, some, str_eq_refl, sym, ◌+◌,
  ◌∙◌, ◌≡◌, ◌≤◌,
}
use codex_model_tester.AccountManager.{
  RefreshAnswer, granted, refused, done, World, get_reply, get_record, Check, stale, check,
  or_disappeared, after_update, after_refresh, refresh_locked,
}
use codex_model_tester.Accounts.Types.{Time, after, OauthToken, Record}
use codex_model_tester.Accounts.Clone.{clone_record, clone_record_lem}
use codex_model_tester.Accounts.Token.{metadata_from_token}
use codex_model_tester.Accounts.Store.{
  ok, err, Env, Service, Done, Outcome, refresh_record, refresh_all_locked,
}
use codex_model_tester.Accounts.Store.Refresh.{lookup-refresh_records, refresh_all-Refreshed}
use codex_model_tester.Accounts.Service.{and_then, clone_found, get}
use codex_model_tester.Accounts.Edit.{with_record, update_auth_record, update_auth}
use codex_model_tester.Accounts.Edit.Laws.{lookup-with_record}
use codex_model_tester.Accounts.Acquire.Found.{map_option-some}
use codex_model_tester.Accounts.Rest.{discard-state}
use codex_model_tester.AccountManager.Usable.{IsValid}

-- What the second check of a call finds, made after the first.
abbrev pub second_check : World → Str → Service → Service × Check
second_check w id s =
    check w.refresh_skew (w.at 1) id (w.others 1 (check w.refresh_skew (w.at 0) id s).0)

-- A result that came from a refresh: the second check found `stale`, whose token the upstream exchanged
-- for `token`; that token was stored, and the result is the account as it was found after that.
pub record WasRefreshed (w : World) (id : Str) (s : Service) (r : Record) : Type 0 where
  pub stale_record : Record
  pub second : (second_check w id s).1 ≡ stale stale_record
  pub valid : IsValid stale_record
  pub expires : stale_record.token.expires_at ≤ (w.at 1).now + w.refresh_skew
  pub token : OauthToken
  pub account_id : Str
  pub answered :
      w.oauth_refresh stale_record.token stale_record.account_id ≡ granted token account_id
  pub updated : Service
  pub update :
      update_auth (w.at 2) stale_record.id account_id token (w.others 2 (second_check w id s).0)
      ≡ (updated, ok tt)
  pub stored : Record
  pub stored_at : lookup stale_record.id updated.records ≡ some stored
  pub stored_token : stored.token ≡ token
  pub found : Record
  pub found_at : lookup stale_record.id (w.others 3 updated).records ≡ some found
  pub returned : (r.id ≡ found.id) × (r.token ≡ found.token)

and_then-ok :
    {A : Type 0} (o : Outcome Done) (next : Service → Outcome A) (s' : Service) (a : A)
    → and_then o next ≡ (s', ok a)
    → next o.0 ≡ (s', ok a)
and_then-ok (s, ok u) next s' a h = h
and_then-ok (s, err e) next s' a h = cc

clone_found-some :
    (x : Option Record) (r : Record)
    → clone_found x ≡ some r
    → (v : Record) × (x ≡ some v) × (clone_record v ≡ r)
clone_found-some none r h = cc
clone_found-some (some v) r h = (v, refl, cc h)

cloned-same :
    (now : Time) (u : Record)
    → ((clone_record (refresh_record now u).0).id ≡ u.id)
      × ((clone_record (refresh_record now u).0).token ≡ u.token)
unfolding refresh_record
cloned-same now u = rw (clone_record_lem (refresh_record now u).0) (ground arith, ground arith)

some_value :
    {A : Type 0} (t t' : Service) (a b : A) → ◌≡◌ {A = Outcome A} (t, ok a) (t', ok b) → a ≡ b
some_value t t' a b e = cc e

-- What `Get` finds has the ID and the token that are stored.
get-found :
    (env : Env) (id : Str) (s s' : Service) (r : Record)
    → get env id s ≡ (s', ok (some r))
    → (u : Record) × (lookup id s.records ≡ some u) × (r.id ≡ u.id) × (r.token ≡ u.token)
unfolding get
get-found env id s s' r h =
    let t = (refresh_all_locked env s).0 in
    let next : Service → Outcome (Option Record) =
      λ s'. (s', ok (clone_found (lookup id s'.records))) in
    let (v, e, c) = clone_found-some (lookup id t.records) r (
      some_value t s' (clone_found (lookup id t.records)) (some r)
        (and_then-ok (refresh_all_locked env s) next s' (some r) h)) in
    let (u, f, g) =
      map_option-some (λ x. (refresh_record env.now x).0) (lookup id s.records)
        (sym (lookup-refresh_records env.now id s.records)
          ∙ (sym (ap (lookup id) (refresh_all-Refreshed env s).records) ∙ e)) in
    let copy : clone_record (refresh_record env.now u).0 ≡ r = ap clone_record g ∙ c in
    let (i, k) = cloned-same env.now u in
    (u, f, sym (ap (λ (x : Record). x.id) copy) ∙ i, sym (ap (λ (x : Record). x.token) copy) ∙ k)

after_refresh-granted :
    (w : World) (q r : Record) (a : RefreshAnswer) (s s' : Service)
    → after_refresh w q a s ≡ (s', done r)
    → (token : OauthToken) × (account_id : Str) × (a ≡ granted token account_id)
      × (after_update w q.id (update_auth (w.at 2) q.id account_id token s) ≡ (s', done r))
unfolding after_refresh
after_refresh-granted w q r (refused text terminal) s s' h = cc
after_refresh-granted w q r (granted token account_id) s s' h = (token, account_id, refl, h)

-- The update succeeded, and the account was read after it.
after_update-ok :
    (w : World) (id : Str) (r : Record) (o : Outcome Done) (s' : Service)
    → after_update w id o ≡ (s', done r)
    → (t : Service) × (o ≡ (t, ok tt)) × (get (w.at 3) id (w.others 3 t) ≡ (s', ok (some r)))
unfolding after_update get_record
after_update-ok w id r (t, err e) s' h = cc
after_update-ok w id r (t, ok u) s' h = (t, refl, read_back (get (w.at 3) id (w.others 3 t)) h)
  where
    read_back :
        (o : Outcome (Option Record))
        → or_disappeared id (get_reply o) ≡ (s', done r)
        → o ≡ (s', ok (some r))
    read_back (z, ok none) e = cc
    read_back (z, ok (some q)) e = ground arith
    read_back (z, err x) e = cc

-- A token that was stored stands in the record.
updated-token :
    (env : Env) (id account_id : Str) (token : OauthToken) (s t : Service)
    → update_auth env id account_id token s ≡ (t, ok tt)
    → (u : Record) × (lookup id t.records ≡ some u) × (u.token ≡ token)
unfolding update_auth update_auth_record
updated-token env id account_id token s t h =
    let f : OauthToken → Record → Record =
      λ t. update_auth_record env.now account_id (metadata_from_token env.decode_payload token) t in
    let same : (with_record env id (f token) s).0 ≡ t =
      sym (discard-state (with_record env id (f token) s)) ∙ ap (λ (o : Outcome Done). o.0) h in
    elim (Option-cases (lookup id s.records)) [
      | inl e ↦ absurd (cc (rw (with_record, e) at h))
      | inr (r, e) ↦ (
        f token r,
        sym (ap (λ (x : Service). lookup id x.records) same)
            ∙ (lookup-with_record env id id (f token) s ∙ rw (str_eq_refl id, e) refl),
        refl,
      )
    ]

pub refresh_locked-WasRefreshed :
    (w : World) (id : Str) (q r : Record) (s s' : Service)
    → (second_check w id s).1 ≡ stale q
    → IsValid q
    → q.token.expires_at ≤ (w.at 1).now + w.refresh_skew
    → refresh_locked w q (second_check w id s).0 ≡ (s', done r)
    → WasRefreshed w id s r
unfolding refresh_locked
refresh_locked-WasRefreshed w id q r s s' second v x h =
    let before = w.others 2 (second_check w id s).0 in
    let (token, account_id, answered, after) =
      after_refresh-granted w q r (w.oauth_refresh q.token q.account_id) before s' h in
    let (t, update, read) =
      after_update-ok w q.id r (update_auth (w.at 2) q.id account_id token before) s' after in
    let (u, e, k) = updated-token (w.at 2) q.id account_id token before t update in
    let (f, g, i, k') = get-found (w.at 3) q.id (w.others 3 t) s' r read in
    record {
      stale_record = q;
      second = second;
      valid = v;
      expires = x;
      token = token;
      account_id = account_id;
      answered = answered;
      updated = t;
      update = update;
      stored = u;
      stored_at = e;
      stored_token = k;
      found = f;
      found_at = g;
      returned = (i, k');
    }
