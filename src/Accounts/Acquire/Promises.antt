-- ===== src/Accounts/Acquire/Promises.antt =====
-- What `Acquire` and `AcquireMatching` of internal/accounts/service.go promise their callers.
use codex_model_tester.Base.{
  ◌≡◌, ◌≢◌, refl, sym, ap, subst, ◌∙◌, Bool, true, false, Option, some, [], Str, lookup,
}
use codex_model_tester.Accounts.Types.{Record, sticky}
use codex_model_tester.Accounts.Clone.{clone_record}
use codex_model_tester.Accounts.Quota.{is_eligible}
use codex_model_tester.Accounts.Rotation.Picks.{IsSmall}
use codex_model_tester.Accounts.Store.{
  ok, err, Env, Service, Done, Outcome, refresh_record, refresh_records, refresh_all_locked,
}
use codex_model_tester.Accounts.Store.Refresh.{
  refresh_all-Refreshed, lookup-refresh_records, refresh_record-eligible,
}
use codex_model_tester.Accounts.Store.Keys.{
  IsKeyed, refresh_records-IsKeyed, refresh_record-id, lookup-id,
}
use codex_model_tester.Accounts.Service.{and_then}
use codex_model_tester.Accounts.Acquire.{allows, is_candidate, choose, acquire_matching}
use codex_model_tester.Accounts.Acquire.Choice.{Source, lookup-In, choose-Source}
use codex_model_tester.Accounts.Acquire.Found.{
  is_candidate-of, preferred-found, choose-total, clone_record-id, map_option-some, In-lookup,
  choose-sticky,
}

and_then-ok :
    {A : Type 0} (o : Outcome Done) (next : Service → Outcome A)
    → o.1 ≡ ok tt
    → and_then o next ≡ next o.0
and_then-ok (s, ok u) next h = refl
and_then-ok (s, err e) next h = cc

and_then-inv :
    {A : Type 0} (o : Outcome Done) (next : Service → Outcome A) {s' : Service} {a : A}
    → and_then o next ≡ (s', ok a)
    → next o.0 ≡ (s', ok a)
and_then-inv (s, ok u) next h = h
and_then-inv (s, err e) next h = cc

-- An account that `AcquireMatching` hands out is the clone of a refreshed record of the service
-- that is eligible at that time and that the filter allows.
pub acquire_matching-Source :
    (env : Env) (preferred_id : Str) (allow : Option (Record → Bool)) (s s' : Service) (r : Record)
    → acquire_matching env preferred_id allow s ≡ (s', ok r)
    → Source allow env.now (refresh_records env.now s.records).0 r
unfolding acquire_matching
acquire_matching-Source env preferred_id allow s s' r h =
    subst (λ m. Source allow env.now m r) (refresh_all-Refreshed env s).records
      (choose-Source allow env.now preferred_id (refresh_all_locked env s).0 s' r
        (and_then-inv (refresh_all_locked env s) (choose allow env.now preferred_id) h))

module _ (env : Env) (preferred_id : Str) (allow : Option (Record → Bool)) (s : Service)
    (refreshes : (refresh_all_locked env s).1 ≡ ok tt) where
  abbrev t : Service
  t = (refresh_all_locked env s).0

  acquire-choose : acquire_matching env preferred_id allow s ≡ choose allow env.now preferred_id t
  unfolding acquire_matching
  acquire-choose =
      and_then-ok (refresh_all_locked env s) (choose allow env.now preferred_id) refreshes

  lookup-t :
      (id : Str) (q : Record)
      → lookup id s.records ≡ some q
      → lookup id t.records ≡ some (refresh_record env.now q).0
  lookup-t id q e =
      rw ((refresh_all-Refreshed env s).records, lookup-refresh_records env.now id s.records, e)
        refl

  candidate-t :
      (q : Record)
      → is_eligible q env.now ≡ true
      → allows allow (clone_record (refresh_record env.now q).0) ≡ true
      → is_candidate allow env.now (refresh_record env.now q).0 ≡ true
  candidate-t q e a =
      is_candidate-of allow env.now (refresh_record env.now q).0
        (refresh_record-eligible env.now q ∙ e) a

  -- A preferred account that the service knows, that is eligible and that the filter allows is
  -- the one that `AcquireMatching` hands out, as long as the refresh could be saved.
  pub acquire_matching-preferred :
      (q : Record)
      → preferred_id ≢ []
      → lookup preferred_id s.records ≡ some q
      → is_eligible q env.now ≡ true
      → allows allow (clone_record (refresh_record env.now q).0) ≡ true
      → (acquire_matching env preferred_id allow s).1
        ≡ ok (clone_record (refresh_record env.now q).0)
  unfolding choose
  acquire_matching-preferred q ne e el al = rw (
    acquire-choose,
    choose,
    preferred-found allow env.now preferred_id t.records (refresh_record env.now q).0 ne
        (lookup-t preferred_id q e) (candidate-t q el al),
  )

  -- Where some account is eligible and allowed, `AcquireMatching` hands one out, as long as the
  -- refresh could be saved and the rotation index has not wrapped.
  pub acquire_matching-total :
      (id : Str) (q : Record)
      → lookup id s.records ≡ some q
      → is_eligible q env.now ≡ true
      → allows allow (clone_record (refresh_record env.now q).0) ≡ true
      → IsSmall s.round_robin_index
      → (r : Record) × ((acquire_matching env preferred_id allow s).1 ≡ ok r)
  acquire_matching-total id q e el al small = rw acquire-choose (
      choose-total allow env.now preferred_id t (refresh_record env.now q).0
        (rw (refresh_all-Refreshed env s).round_robin_index small)
        (lookup-In id t.records (refresh_record env.now q).0 (lookup-t id q e))
        (candidate-t q el al))

  -- Under the sticky strategy, with no account preferred, `AcquireMatching` hands out the
  -- account of the last success when that account is known, eligible and allowed, as long as
  -- the refresh could be saved and each record stands under its own ID, once.
  pub acquire_matching-sticky :
      (q : Record)
      → preferred_id ≡ []
      → s.rotation_strategy ≡ sticky
      → s.sticky_account_id ≢ []
      → IsKeyed s.records
      → lookup s.sticky_account_id s.records ≡ some q
      → is_eligible q env.now ≡ true
      → allows allow (clone_record (refresh_record env.now q).0) ≡ true
      → (r : Record) × ((acquire_matching env preferred_id allow s).1 ≡ ok r)
        × (r.id ≡ s.sticky_account_id)
  acquire_matching-sticky q p st ne k e el al =
      let f = refresh_all-Refreshed env s in
      let (r, g, i) =
        choose-sticky allow env.now t (refresh_record env.now q).0 (f.rotation_strategy ∙ st)
          (rw f.sticky_account_id ne)
          (rw (f.sticky_account_id, lookup-t s.sticky_account_id q e) refl)
          (rw (f.sticky_account_id, refresh_record-id env.now q)
            (lookup-id s.sticky_account_id s.records q k e))
          (candidate-t q el al) in
      (
        r,
        ap (λ (o : Outcome Record). o.1) acquire-choose
            ∙ ap (λ (x : Str). (choose allow env.now x t).1) p
            ∙ g,
        i ∙ f.sticky_account_id,
      )

-- An account that is unknown or not eligible is never handed out.
pub acquire_matching-ineligible :
    (env : Env) (preferred_id : Str) (allow : Option (Record → Bool)) (s s' : Service) (r : Record)
    (id : Str)
    → IsKeyed s.records
    → ((q : Record) → lookup id s.records ≡ some q → is_eligible q env.now ≡ false)
    → acquire_matching env preferred_id allow s ≡ (s', ok r)
    → r.id ≢ id
acquire_matching-ineligible env preferred_id allow s s' r id k el h same =
    let source = acquire_matching-Source env preferred_id allow s s' r h in
    let m = (refresh_records env.now s.records).0 in
    let found : lookup id m ≡ some source.stored =
      subst (λ x. lookup x m ≡ some source.stored)
        (sym (ap (λ (x : Record). x.id) source.cloned ∙ clone_record-id source.stored) ∙ same)
        (In-lookup m source.stored (refresh_records-IsKeyed env.now s.records k) source.member) in
    let (q, e, f) =
      map_option-some _ (lookup id s.records)
        (sym (lookup-refresh_records env.now id s.records) ∙ found) in
    cc (
      source.eligible,
      ap (λ x. is_eligible x env.now) f,
      refresh_record-eligible env.now q,
      el q e,
    )
