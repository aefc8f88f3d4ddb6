-- ===== src/Accounts/Rest.antt =====
-- Accounts of internal/accounts/service.go that rest: in cooldown, or with a status that is not
-- active, while other calls come.
pub mod Calls
use codex_model_tester.Base.{
  Bool, Bool-cases, List, Option, Str, [], ap, arith, false, inl, inr, lookup, none, refl, some,
  str_eq, str_eq_refl, subst, sym, true, ◌<◌, ◌∙◌, ◌∷◌, ◌≡◌, ◌≤◌, ◌⊎◌,
}
use codex_model_tester.Accounts.Types.{Time, after, Status, Record, is_active}
use codex_model_tester.Accounts.Quota.{cooling, is_eligible}
use codex_model_tester.Accounts.Store.{
  Result, ok, err, Env, Service, Done, Outcome, persist_locked, clear_expired, refresh_record,
  refresh_all_locked,
}
use codex_model_tester.Accounts.Store.Refresh.{lookup-refresh_records, refresh_all-Refreshed}
use codex_model_tester.Accounts.Service.{and_then, refreshed}
use codex_model_tester.Accounts.Edit.{
  with_record, discard, clone_result, patch_record, mark_error_record, set_cooldown_record,
}
use codex_model_tester.Accounts.Edit.Laws.{lookup-with_record}
use codex_model_tester.Accounts.Acquire.Found.{map_option-some}
use codex_model_tester.Accounts.System.{
  Call, upserts, patches, observes, updates_auth, marks_error, sets_cooldown,
}
use codex_model_tester.Accounts.System.Sound.{Quiet}

pub discard-state : {A : Type 0} (o : Service × Result A) → (discard o).0 ≡ o.0
discard-state (s, ok a) = refl
discard-state (s, err e) = refl

pub clone_result-state : (o : Outcome Record) → (clone_result o).0 ≡ o.0
clone_result-state (s, ok r) = refl
clone_result-state (s, err e) = refl

-- All records that an edit leaves under its account satisfy what the edit ensures.
pub edited :
    (P : Record → Type 0) (env : Env) (id : Str) (f : Record → Record) (s : Service) (q : Record)
    → ((r : Record) → P (f r))
    → lookup id (with_record env id f s).0.records ≡ some q
    → P q
edited P env id f s q p e =
    let (r, g, h) =
      map_option-some f (lookup id s.records)
        (rw (lookup-with_record env id id f s, str_eq_refl id) at e) in
    subst P h (p r)

-- A cooldown that does not end before `until`.
abbrev pub CoolsTill : Time → Option Time → Type 0
CoolsTill until none = ⊥
CoolsTill until (some t) = until ≤ t

abbrev pub IsResting : Time → Record → Type 0
IsResting until r = (is_active r.status ≡ false) ⊎ CoolsTill until r.cooldown_until

-- The account rests, if it is known.
abbrev pub Rests : Time → Str → Service → Type 0
Rests until id s = (q : Record) → lookup id s.records ≡ some q → IsResting until q

-- A call that does not end the rest of the account: no token is stored by a login, its quota and its
-- credentials are not observed or updated, its status is not set by an admin, and no error or
-- cooldown that is set for it lets it go earlier.
abbrev pub Spares : Time → Str → Call → Type 0
Spares until id (upserts account_id token) = ⊥
Spares until id (patches j label (some status)) = str_eq j id ≡ false
Spares until id (observes j quota) = str_eq j id ≡ false
Spares until id (updates_auth j account_id token) = str_eq j id ≡ false
Spares until id (marks_error j status message) = (str_eq j id ≡ false) ⊎ (is_active status ≡ false)
Spares until id (sets_cooldown j t message) = (str_eq j id ≡ false) ⊎ CoolsTill until t
Spares until id _ = Unit

-- Such calls, all of them before `until`.
abbrev pub AllSpare : Time → Str → List (Env × Call) → Type 0
AllSpare until id [] = Unit
AllSpare until id ((env, call) ∷ calls) =
    (env.now < until) × Spares until id call × AllSpare until id calls

pub ineligible-IsResting :
    (until later : Time) (r : Record)
    → later < until
    → IsResting until r
    → is_eligible r later ≡ false
unfolding is_eligible
ineligible-IsResting until later r lt (inl h) = rw h refl
ineligible-IsResting until later r lt (inr c) =
    let cools : cooling r.cooldown_until later ≡ true = still r.cooldown_until c in
    ground (arith, cools)
  where
    still : (t : Option Time) → CoolsTill until t → cooling t later ≡ true
    still none c = absurd c
    still (some t) c = ground arith

cleared-CoolsTill :
    (until now : Time) (t : Option Time)
    → now < until
    → CoolsTill until t
    → CoolsTill until (clear_expired t now).0
cleared-CoolsTill until now none lt c = c
cleared-CoolsTill until now (some t) lt c =
    let later : after t now ≡ true = ground arith in rw later c

refresh_record-status : (now : Time) (r : Record) → (refresh_record now r).0.status ≡ r.status
unfolding refresh_record
refresh_record-status now r = ground arith

refresh_record-cooldown :
    (now : Time) (r : Record)
    → (refresh_record now r).0.cooldown_until ≡ (clear_expired r.cooldown_until now).0
unfolding refresh_record
refresh_record-cooldown now r = ground arith

refresh_record-IsResting :
    (until now : Time) (r : Record)
    → now < until
    → IsResting until r
    → IsResting until (refresh_record now r).0
refresh_record-IsResting until now r lt (inl h) = inl (rw (refresh_record-status now r) h)
refresh_record-IsResting until now r lt (inr c) =
    inr (rw (refresh_record-cooldown now r) (cleared-CoolsTill until now r.cooldown_until lt c))

refresh_all-Rests :
    (until : Time) (env : Env) (id : Str) (s : Service)
    → env.now < until
    → Rests until id s
    → Rests until id (refresh_all_locked env s).0
refresh_all-Rests until env id s lt h q e =
    let (r, f, g) =
      map_option-some (λ x. (refresh_record env.now x).0) (lookup id s.records)
        (sym (lookup-refresh_records env.now id s.records)
          ∙ (sym (ap (lookup id) (refresh_all-Refreshed env s).records) ∙ e)) in
    subst (IsResting until) g (refresh_record-IsResting until env.now r lt (h r f))

and_then-records :
    {A : Type 0} (o : Outcome Done) (next : Service → Outcome A)
    → ((t : Service) → Quiet t (next t))
    → (and_then o next).0.records ≡ o.0.records
and_then-records (t, ok u) next n = (n t).records
and_then-records (t, err e) next n = refl

-- A call that refreshes and then reads.
pub refreshed-Rests :
    {A : Type 0} (until : Time) (env : Env) (id : Str) (s : Service) (next : Service → Outcome A)
    → ((t : Service) → Quiet t (next t))
    → env.now < until
    → Rests until id s
    → Rests until id (refreshed env s next).0
refreshed-Rests until env id s next n lt h q e =
    refresh_all-Rests until env id s lt h q
      (sym (ap (lookup id) (and_then-records (refresh_all_locked env s) next n)) ∙ e)

-- A call that changes the record of one account.
pub with_record-Rests :
    (until : Time) (env : Env) (j id : Str) (f : Record → Record) (s : Service)
    → (str_eq j id ≡ false) ⊎ ((r : Record) → IsResting until r → IsResting until (f r))
    → Rests until id s
    → Rests until id (with_record env j f s).0
with_record-Rests until env j id f s keeps h q e = elim (Bool-cases (str_eq j id)) [
  | inr d ↦ h q (rw (lookup-with_record env j id f s, d) at e)
  | inl d ↦ elim keeps [
    | inl n ↦ absurd (cc (n, d))
    | inr k ↦
        let (r, g, x) =
          map_option-some f (lookup id s.records) (rw (lookup-with_record env j id f s, d) at e) in
        subst (IsResting until) x (k r (h r g))
  ]
]

pub mark_error_record-IsResting :
    (until now : Time) (status : Status) (message : Str) (r : Record)
    → is_active status ≡ false
    → IsResting until (mark_error_record now status message r)
unfolding mark_error_record
mark_error_record-IsResting until now status message r h = inl h

pub set_cooldown_record-IsResting :
    (until now : Time) (t : Option Time) (message : Str) (r : Record)
    → CoolsTill until t
    → IsResting until (set_cooldown_record now t message r)
unfolding set_cooldown_record
set_cooldown_record-IsResting until now t message r c = inr c

pub patch_label-IsResting :
    (until now : Time) (label : Option Str) (r : Record)
    → IsResting until r
    → IsResting until (patch_record now label none r)
unfolding patch_record
patch_label-IsResting until now none r h = h
patch_label-IsResting until now (some label) r h = h

pub or_keeps : (d : Bool) (P : Type 0) (Q : Type 0) → (d ≡ false) ⊎ P → (P → Q) → (d ≡ false) ⊎ Q
or_keeps d P Q (inl e) f = inl e
or_keeps d P Q (inr p) f = inr (f p)

pub persist-records : (env : Env) (t : Service) → (persist_locked env t).0.records ≡ t.records
unfolding persist_locked
persist-records env t = ground arith
