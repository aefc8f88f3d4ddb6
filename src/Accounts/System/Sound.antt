-- ===== src/Accounts/System/Sound.antt =====
-- What every call on the service of internal/accounts/service.go keeps, and its proof rules.
use codex_model_tester.Base.{
  ◌≡◌, refl, ◌∙◌, ◌⊎◌, inl, inr, Bool-cases, Str, Option-cases, lookup, insert,
}
use codex_model_tester.Accounts.Types.{Record}
use codex_model_tester.Accounts.Store.{
  Error, Result, ok, err, Env, Service, Done, Outcome, saved_state, persist_locked, returning,
  refresh_all_locked, refresh_records, account_not_found,
}
use codex_model_tester.Accounts.Store.Refresh.{IsSaved, refresh_records_same}
use codex_model_tester.Accounts.Store.Keys.{
  IsKeyed, insert-IsKeyed, refresh_records-IsKeyed, lookup-id,
}
use codex_model_tester.Accounts.Service.{and_then, refreshed}
use codex_model_tester.Accounts.Edit.{with_record, discard, clone_result}

abbrev pub IsOk : {A : Type 0} → Result A → Type 0
IsOk (ok a) = Unit
IsOk (err e) = ⊥

-- The map stays keyed; a call that succeeds leaves the store in step with the memory, if it was;
-- however a call ends, the store holds what it held or what the memory holds.
pub record Sound {A : Type 0} (s : Service) (o : Outcome A) : Type 0 where
  pub keyed : IsKeyed s.records → IsKeyed o.0.records
  pub saved : IsSaved s → IsOk o.1 → IsSaved o.0
  pub whole : (o.0.disk ≡ s.disk) ⊎ IsSaved o.0

-- What is saved, and the store, are as they were.
pub record Quiet {A : Type 0} (s : Service) (o : Outcome A) : Type 0 where
  pub records : o.0.records ≡ s.records
  pub rotation_strategy : o.0.rotation_strategy ≡ s.rotation_strategy
  pub disk : o.0.disk ≡ s.disk

module _ {A : Type 0} where
  pub fail-Sound : (s : Service) (e : Error) → Sound {A = A} s (s, err e)
  fail-Sound s e = record { keyed = λ k. k; saved = λ v o. v; whole = inl refl }

  pub discard-Sound : (s : Service) (o : Outcome A) → Sound s o → Sound s (discard o)
  discard-Sound s (s', ok a) h = record {
    keyed = h.keyed;
    saved = λ v o. h.saved v tt;
    whole = h.whole;
  }
  discard-Sound s (s', err e) h = record {
    keyed = h.keyed;
    saved = λ v o. absurd o;
    whole = h.whole;
  }

  pub returning-Sound :
      (s : Service) (o : Outcome Done) (a : A) → Sound s o → Sound s (returning o a)
  returning-Sound s (s', ok u) a h = record {
    keyed = h.keyed;
    saved = λ v o. h.saved v tt;
    whole = h.whole;
  }
  returning-Sound s (s', err e) a h = record {
    keyed = h.keyed;
    saved = λ v o. absurd o;
    whole = h.whole;
  }

  Quiet-IsSaved : (t : Service) (o : Outcome A) → Quiet t o → IsSaved t → IsSaved o.0
  Quiet-IsSaved t o q v = rw (q.disk, v, q.records, q.rotation_strategy) refl

  and_then-Sound :
      (s : Service) (o : Outcome Done) (next : Service → Outcome A)
      → Sound s o
      → ((t : Service) → Quiet t (next t))
      → Sound s (and_then o next)
  and_then-Sound s (t, err e) next h n = record {
    keyed = h.keyed;
    saved = λ v o. absurd o;
    whole = h.whole;
  }
  and_then-Sound s (t, ok u) next h n = record {
    keyed = λ k. rw (n t).records (h.keyed k);
    saved = λ v o. Quiet-IsSaved t (next t) (n t) (h.saved v tt);
    whole = elim h.whole [
      | inl e ↦ inl ((n t).disk ∙ e)
      | inr v ↦ inr (Quiet-IsSaved t (next t) (n t) v)
    ];
  }

pub persist-Sound :
    (env : Env) (s t : Service)
    → t.disk ≡ s.disk
    → (IsKeyed s.records → IsKeyed t.records)
    → Sound s (persist_locked env t)
unfolding persist_locked
persist-Sound env s t d k = elim (Option-cases (env.save_error (saved_state t))) [
  | inl e ↦ rw (e, persist_locked) (record { keyed = k; saved = λ v o. refl; whole = inr refl })
  | inr (x, e) ↦
      rw (e, persist_locked) (record { keyed = k; saved = λ v o. absurd o; whole = inl d })
]

refresh_all-Sound : (env : Env) (s : Service) → Sound s (refresh_all_locked env s)
unfolding refresh_all_locked
refresh_all-Sound env s = elim (Bool-cases (refresh_records env.now s.records).1) [
  | inl e ↦
      rw (e, refresh_all_locked)
        (persist-Sound env s (record s { records = (refresh_records env.now s.records).0 }) refl
          (refresh_records-IsKeyed env.now s.records))
  | inr e ↦
      rw (e, refresh_all_locked, refresh_records_same env.now s.records e)
        (record { keyed = λ k. k; saved = λ v o. v; whole = inl refl })
]

-- A call that refreshes and then reads.
pub refreshed-Sound :
    {A : Type 0} (env : Env) (s : Service) (next : Service → Outcome A)
    → ((t : Service) → Quiet t (next t))
    → Sound s (refreshed env s next)
refreshed-Sound env s next n =
    and_then-Sound s (refresh_all_locked env s) next (refresh_all-Sound env s) n

-- A call that changes one record, but not its ID.
pub with_record-Sound :
    (env : Env) (id : Str) (f : Record → Record) (s : Service)
    → ((r : Record) → (f r).id ≡ r.id)
    → Sound s (with_record env id f s)
with_record-Sound env id f s same = elim (Option-cases (lookup id s.records)) [
  | inl e ↦ rw (e, with_record) (fail-Sound s account_not_found)
  | inr (r, e) ↦
      rw (e, with_record)
        (returning-Sound s _ (f r) (
          persist-Sound env s (record s { records = insert id (f r) s.records }) refl
            (λ k. insert-IsKeyed id (f r) s.records (same r ∙ lookup-id id s.records r k e) k)))
]

pub clone_result-Sound : (s : Service) (o : Outcome Record) → Sound s o → Sound s (clone_result o)
clone_result-Sound s (s', ok a) h = record {
  keyed = h.keyed;
  saved = λ v o. h.saved v tt;
  whole = h.whole;
}
clone_result-Sound s (s', err e) h = record {
  keyed = h.keyed;
  saved = λ v o. absurd o;
  whole = h.whole;
}
