-- ===== src/Accounts/Edit/Laws.antt =====
-- What the methods of internal/accounts/service.go that edit one record do to it.
use codex_model_tester.Base.{
  ◌≡◌, arith, Str, str_eq, str_eq_iff, lookup, lookup-insert, Option-cases, inl, inr, if◌then◌else◌,
}
use codex_model_tester.Accounts.Types.{Record}
use codex_model_tester.Accounts.Store.{Env, Service, persist_locked, returning}
use codex_model_tester.Accounts.Store.Refresh.{map_option}
use codex_model_tester.Accounts.Edit.{with_record}

pub edited-records :
    {A : Type 0} (env : Env) (t : Service) (a : A)
    → (returning (persist_locked env t) a).0.records ≡ t.records
unfolding persist_locked
edited-records env t a = ground arith

-- An edit changes the record of its account and no other, whether or not it could be saved.
pub lookup-with_record :
    (env : Env) (id j : Str) (f : Record → Record) (s : Service)
    → lookup j (with_record env id f s).0.records
      ≡ (if str_eq id j then map_option f (lookup j s.records) else lookup j s.records)
lookup-with_record env id j f s = elim (Option-cases (lookup id s.records)) [
  | inl e ↦ rw (with_record, e) (ground (arith, e, str_eq_iff id j))
  | inr (r, e) ↦
      rw (with_record, e, edited-records, lookup-insert) (ground (arith, e, str_eq_iff id j))
]
