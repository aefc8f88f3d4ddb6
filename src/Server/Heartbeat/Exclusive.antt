-- ===== src/Server/Heartbeat/Exclusive.antt =====
-- Claims of one monitor of internal/server/heartbeat.go, one after the other.
use codex_model_tester.Base.{
  ℕ, ◌≡◌, refl, Bool, true, false, Option, none, some, List, [], ◌∷◌, arith, Str, Dict, str_eq,
  str_eq_iff, str_eq_refl, lookup, insert, lookup-insert, lookup-erase, is_some, All,
}
use codex_model_tester.Accounts.Types.{Time}
use codex_model_tester.Server.Heartbeat.{
  save_locked, upsert, upsert_monitor, remove, release, complete, complete_found, completed,
  should_notify, scheduled, or_new, new_monitor, without,
}
use codex_model_tester.Server.Monitor.{
  heartbeat_monitor_id, HeartbeatMonitor, HeartbeatOutcome, HeartbeatManager, done, failed,
  heartbeat_running,
}
use codex_model_tester.Server.Claims.{
  is_running, claim, claim_found, claim_each, claim_due, mark_running,
}
use codex_model_tester.Server.Heartbeat.Events.{
  Event, upserted, removed, account_removed, claimed, claimed_due, released, finished, step, run,
  may_end, IsBusy,
}

save_locked-IsBusy {ℓ} :
    {A : Type ℓ} (failure : Option Str) (a : A) (id : Str) (m : HeartbeatManager)
    → IsBusy id m
    → IsBusy id (save_locked failure a m).0
unfolding save_locked
save_locked-IsBusy none a id m h = h
save_locked-IsBusy (some e) a id m h = h

insert-IsBusy :
    (id j : Str) (b : HeartbeatMonitor) (m : HeartbeatManager)
    → IsBusy id m
    → IsBusy id (record m { monitors = insert j b m.monitors })
insert-IsBusy id j b m h = ground (arith, lookup-insert j id b m.monitors)

erase-IsBusy :
    (id j : Str) (m : HeartbeatManager)
    → str_eq j id ≡ false
    → IsBusy id m
    → IsBusy id (release j m)
unfolding release
erase-IsBusy id j m e h = ground (arith, lookup-erase j id m.running)

without-IsBusy :
    (id j : Str) (m : HeartbeatManager)
    → str_eq j id ≡ false
    → IsBusy id m
    → IsBusy id (without j m)
without-IsBusy id j m e h =
    ground (arith, lookup-erase j id m.running, lookup-erase j id m.monitors)

mark_running-IsBusy :
    (id j : Str) (m : HeartbeatManager)
    → lookup id m.running ≡ some true
    → lookup id (mark_running j m).running ≡ some true
mark_running-IsBusy id j m h = ground (arith, lookup-insert j id true m.running, str_eq_iff j id)

claim_each-monitors :
    (now : Time) (d : Dict HeartbeatMonitor) (m : HeartbeatManager)
    → (claim_each now d m).0.monitors ≡ m.monitors
unfolding claim_each
claim_each-monitors now [] m = refl
claim_each-monitors now ((j, b) ∷ d) m =
    ground (arith, claim_each-monitors now d m, claim_each-monitors now d (mark_running j m))

claim_each-IsBusy :
    (now : Time) (id : Str) (d : Dict HeartbeatMonitor) (m : HeartbeatManager)
    → lookup id m.running ≡ some true
    → lookup id (claim_each now d m).0.running ≡ some true
unfolding claim_each
claim_each-IsBusy now id [] m h = h
claim_each-IsBusy now id ((j, b) ∷ d) m h = ground (
  arith,
  claim_each-IsBusy now id d m,
  claim_each-IsBusy now id d (mark_running j m),
  mark_running-IsBusy id j m h,
)

claim_found-IsBusy :
    (id j : Str) (force : Bool) (now : Time) (found : Option HeartbeatMonitor)
    (m : HeartbeatManager)
    → IsBusy id m
    → IsBusy id (claim_found j force now found m).0
unfolding claim_found
claim_found-IsBusy id j force now none m h = h
claim_found-IsBusy id j force now (some b) m h = ground (arith, mark_running-IsBusy id j m h.0)

complete_found-IsBusy :
    (failure : Option Str) (draw : ℕ) (id j : Str) (o : HeartbeatOutcome) (now : Time)
    (found : Option HeartbeatMonitor) (m : HeartbeatManager)
    → IsBusy id m
    → IsBusy id (complete_found failure draw j o now found m).0
unfolding complete_found
complete_found-IsBusy failure draw id j o now none m h = h
complete_found-IsBusy failure draw id j o now (some b) m h =
    save_locked-IsBusy failure (completed draw o now b, should_notify o b) id
      (record m { monitors = insert j (completed draw o now b) m.monitors })
      (insert-IsBusy id j (completed draw o now b) m h)

upsert_monitor-IsBusy :
    (failure : Option Str) (draw : ℕ) (id j account_id model : Str) (seconds : ℕ) (now : Time)
    (m : HeartbeatManager)
    → IsBusy id m
    → IsBusy id (upsert_monitor failure draw j account_id model seconds now m).0
unfolding upsert_monitor
upsert_monitor-IsBusy failure draw id j account_id model seconds now m h =
    let b =
      scheduled draw seconds now
        (or_new (new_monitor j account_id model now) (lookup j m.monitors)) in
    let m' = record m { monitors = insert j b m.monitors } in
    let saved = save_locked-IsBusy failure b id m' (insert-IsBusy id j b m h) in ground arith

remove-IsBusy :
    (failure : Option Str) (id j : Str) (m : HeartbeatManager)
    → str_eq j id ≡ false
    → IsBusy id m
    → IsBusy id (remove failure j m).0
unfolding remove
remove-IsBusy failure id j m e h =
    let saved = save_locked-IsBusy {0} failure tt id (without j m) (without-IsBusy id j m e h) in
    ground arith

-- A monitor that runs still does after any call that may not end its run.
pub step-IsBusy :
    (e : Event) (id : Str) (m : HeartbeatManager)
    → may_end id e ≡ false
    → IsBusy id m
    → IsBusy id (step e m)
unfolding step
step-IsBusy (upserted sum256 failure draw account_id model seconds now) id m e h =
    unfold upsert in
    upsert_monitor-IsBusy failure draw id (heartbeat_monitor_id sum256 account_id model) account_id
      model seconds now m h
step-IsBusy (removed failure j) id m e h = remove-IsBusy failure id j m e h
step-IsBusy (account_removed failure account_id) id m e h = cc
step-IsBusy (claimed j force now) id m e h =
    unfold claim in claim_found-IsBusy id j force now (lookup j m.monitors) m h
step-IsBusy (claimed_due now) id m e h =
    unfold claim_due in
    (claim_each-IsBusy now id m.monitors m h.0, rw (claim_each-monitors now m.monitors m) h.1)
step-IsBusy (released j) id m e h = unfold release in ground (arith, lookup-erase j id m.running)
step-IsBusy (finished failure draw j o now) id m e h =
    unfold complete in
    complete_found-IsBusy failure draw id j o now (lookup j m.monitors) (release j m)
      (erase-IsBusy id j m e h)

run-IsBusy :
    (es : List Event) (id : Str) (m : HeartbeatManager)
    → All (λ e. may_end id e ≡ false) es
    → IsBusy id m
    → IsBusy id (run es m)
unfolding run
run-IsBusy [] id m a h = h
run-IsBusy (e ∷ es) id m a h = run-IsBusy es id (step e m) a.1 (step-IsBusy e id m a.0 h)

claim_found-done-IsBusy :
    (id : Str) (force : Bool) (now : Time) (found : Option HeartbeatMonitor) (b : HeartbeatMonitor)
    (m : HeartbeatManager)
    → lookup id m.monitors ≡ found
    → (claim_found id force now found m).1 ≡ done b
    → IsBusy id (claim_found id force now found m).0
unfolding claim_found
claim_found-done-IsBusy id force now none b m f h = cc
claim_found-done-IsBusy id force now (some c) b m f h =
    ground (arith, lookup-insert id id true m.running, str_eq_refl id)

IsBusy-running : (id : Str) (m : HeartbeatManager) → IsBusy id m → is_running id m ≡ true
IsBusy-running id m h = rw (h.0, is_running) refl

claim_found-refused :
    (id : Str) (force : Bool) (now : Time) (found : Option HeartbeatMonitor) (m : HeartbeatManager)
    → is_some found ≡ true
    → is_running id m ≡ true
    → claim_found id force now found m ≡ (m, failed heartbeat_running)
unfolding claim_found
claim_found-refused id force now none m f h = cc
claim_found-refused id force now (some c) m f h = ground arith

-- After a claim of a monitor has succeeded, and any calls that contain no release, completion
-- or removal of that monitor and no removal of an account, a second claim of it, forced or not,
-- is refused because it runs, and changes nothing.
pub claim-run :
    (id : Str) (force again : Bool) (now later : Time) (b : HeartbeatMonitor) (es : List Event)
    (m : HeartbeatManager)
    → (claim id force now m).1 ≡ done b
    → All (λ e. may_end id e ≡ false) es
    → claim id again later (run es (claim id force now m).0)
      ≡ (run es (claim id force now m).0, failed heartbeat_running)
unfolding claim
claim-run id force again now later b es m h a =
    let m' = (claim_found id force now (lookup id m.monitors) m).0 in
    let busy =
      run-IsBusy es id m' a
        (claim_found-done-IsBusy id force now (lookup id m.monitors) b m refl h) in
    claim_found-refused id again later (lookup id (run es m').monitors) (run es m') busy.1
      (IsBusy-running id (run es m') busy)
