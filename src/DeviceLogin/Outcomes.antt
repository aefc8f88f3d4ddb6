-- ===== src/DeviceLogin/Outcomes.antt =====
-- How many goroutines of internal/devicelogin/service.go poll for one login, and what they may do to
-- it.
use codex_model_tester.Base.{
  Bool, Bool-cases, Dict, IsMap, List, Option, Str, [], arith, false, get_elem?, if◌then◌else◌, inl,
  inr, insert-IsMap, lookup, lookup-insert, none, refl, some, str_eq, subst, suc, true, zero, ℕ,
  ◌&&◌, ◌++◌, ◌+◌, ◌∙◌, ◌∷◌, ◌≡◌, ◌≤◌, ◌⊎◌,
}
use codex_model_tester.DeviceLogin.{
  PendingLogin, Stage, stored, returned, Goroutine, DeviceLoginService, is_pending, set_login,
  put_found, set_status, set_stage,
}
use codex_model_tester.DeviceLogin.Moves.{is_live, Move, stays, stores, stops}
use codex_model_tester.Accounts.Types.{Record}
use codex_model_tester.Accounts.Store.{Result}

-- Whether a goroutine still polls for the login, as a number.
abbrev pub one : Str → Goroutine → ℕ
one id g = if str_eq g.login_id id && is_live g.stage then 1 else 0

unfoldable pub live : Str → List Goroutine → ℕ
live id [] = 0
live id (g ∷ gs) = one id g + live id gs

-- A login that is decided and that no goroutine polls for, or no login.
abbrev pub IsDecided : Option PendingLogin → ℕ → Type 0
IsDecided none n = Unit
IsDecided (some l) n = (is_pending l.login.status ≡ true) ⊎ (n ≡ 0)

-- No key stands twice, at most one goroutine polls for the login, and none once it is decided.
pub record IsSingle (id : Str) (s : DeviceLoginService) : Type 0 where
  pub keyed : IsMap s.logins
  pub single : live id s.polling ≤ 1
  pub decided : IsDecided (lookup id s.logins) (live id s.polling)

pub lookup-put_found :
    (id j : Str) (f : PendingLogin → PendingLogin) (found : Option PendingLogin)
    (m : Dict PendingLogin)
    → lookup id m ≡ found
    → str_eq id j ≡ false
    → lookup j (put_found id f found m) ≡ lookup j m
lookup-put_found id j f none m h e = refl
lookup-put_found id j f (some l) m h e = ground (arith, lookup-insert id j (f l) m)

pub put_found-IsMap :
    (id : Str) (f : PendingLogin → PendingLogin) (found : Option PendingLogin)
    (m : Dict PendingLogin)
    → IsMap m
    → IsMap (put_found id f found m)
put_found-IsMap id f none m h = h
put_found-IsMap id f (some l) m h = insert-IsMap id (f l) m h

pub live-append :
    (id : Str) (gs : List Goroutine) (g : Goroutine)
    → live id (gs ++ g ∷ []) ≡ live id gs + one id g
unfolding live
live-append id [] g = omega arith
live-append id (h ∷ gs) g = omega (arith, live-append id gs g)

live-set_stage :
    (id : Str) (i : ℕ) (stage : Stage) (gs : List Goroutine) (g : Goroutine)
    → get_elem? gs i ≡ some g
    → live id (set_stage i stage gs) + one id g ≡ live id gs + one id (record g { stage = stage })
unfolding live set_stage
live-set_stage id i stage [] g e = cc
live-set_stage id zero stage (h ∷ gs) g e =
    let same : h ≡ g = cc e in
    subst
      (λ x.
        one id (record h { stage = stage }) + live id gs + one id x
        ≡ one id h + live id gs + one id (record x { stage = stage }))
      same (omega arith)
live-set_stage id (suc i) stage (h ∷ gs) g e = omega (arith, live-set_stage id i stage gs g e)

live-stored :
    (id : Str) (i : ℕ) (r : Result Record) (gs : List Goroutine) (g : Goroutine)
    → get_elem? gs i ≡ some g
    → is_live g.stage ≡ true
    → live id (set_stage i (stored r) gs) ≡ live id gs
live-stored id i r gs g e l =
    let same : one id (record g { stage = stored r }) ≡ one id g = rw l refl in
    omega (arith, same, live-set_stage id i (stored r) gs g e)

pub live-returned :
    (id : Str) (i : ℕ) (gs : List Goroutine) (g : Goroutine)
    → get_elem? gs i ≡ some g
    → is_live g.stage ≡ true
    → live id gs ≡ (
        if str_eq g.login_id id
        then suc (live id (set_stage i returned gs))
        else live id (set_stage i returned gs))
live-returned id i gs g e l = elim (Bool-cases (str_eq g.login_id id)) [
  | inl d ↦
      let was : one id g ≡ 1 = rw (d, l) refl in
      let is : one id (record g { stage = returned }) ≡ 0 = rw d refl in
      rw d (omega (arith, was, is, live-set_stage id i returned gs g e))
  | inr d ↦
      let was : one id g ≡ 0 = rw d refl in
      let is : one id (record g { stage = returned }) ≡ 0 = rw d refl in
      rw d (omega (arith, was, is, live-set_stage id i returned gs g e))
]

stopped-IsDecided : (found : Option PendingLogin) (n : ℕ) → n ≡ 0 → IsDecided found n
stopped-IsDecided none n h = tt
stopped-IsDecided (some l) n h = inr h

-- A step of a goroutine.
pub Move-IsSingle :
    (id : Str) (s : DeviceLoginService) {s' : DeviceLoginService}
    → Move s s'
    → IsSingle id s
    → IsSingle id s'
unfolding set_status
Move-IsSingle id s stays h = h
Move-IsSingle id s (stores i g (accounts, r) e l) h =
    let same = live-stored id i r s.polling g e l in
    record { keyed = h.keyed; single = rw same h.single; decided = rw same h.decided }
Move-IsSingle id s (stops i g only_pending status message e l) h =
    let before = live-returned id i s.polling g e l in
    let m = set_login only_pending status message in
    let keyed = put_found-IsMap g.login_id m (lookup g.login_id s.logins) s.logins h.keyed in
    elim (Bool-cases (str_eq g.login_id id)) [
      | inl d ↦
          let one_less : live id s.polling ≡ suc (live id (set_stage i returned s.polling)) =
            before ∙ rw d refl in
          let zero_left : live id (set_stage i returned s.polling) ≡ 0 =
            omega (arith, one_less, h.single) in
          record {
            keyed = keyed;
            single = omega (arith, zero_left);
            decided = stopped-IsDecided _ (live id (set_stage i returned s.polling)) zero_left;
          }
      | inr d ↦
          let same : live id s.polling ≡ live id (set_stage i returned s.polling) =
            before ∙ rw d refl in
          record {
            keyed = keyed;
            single = rw same at h.single;
            decided =
                rw (lookup-put_found g.login_id id m (lookup g.login_id s.logins) s.logins refl d)
                  (rw same at h.decided);
          }
    ]

-- A login that no goroutine polls for, before one is started.
pub record IsIdle (id : Str) (s : DeviceLoginService) : Type 0 where
  pub keyed : IsMap s.logins
  pub none_live : live id s.polling ≡ 0

live_if : (d : Bool) (n m : ℕ) → n ≡ (if d then suc m else m) → m ≤ n
live_if true n m h = omega (arith, h)
live_if false n m h = omega (arith, h)

pub Move-IsIdle :
    (id : Str) (s : DeviceLoginService) {s' : DeviceLoginService}
    → Move s s'
    → IsIdle id s
    → IsIdle id s'
unfolding set_status
Move-IsIdle id s stays h = h
Move-IsIdle id s (stores i g (accounts, r) e l) h = record {
  keyed = h.keyed;
  none_live = live-stored id i r s.polling g e l ∙ h.none_live;
}
Move-IsIdle id s (stops i g only_pending status message e l) h =
    let m = set_login only_pending status message in
    record {
      keyed = put_found-IsMap g.login_id m (lookup g.login_id s.logins) s.logins h.keyed;
      none_live = omega (
        arith,
        h.none_live,
        live_if (str_eq g.login_id id) (live id s.polling)
            (live id (set_stage i returned s.polling)) (live-returned id i s.polling g e l),
      );
    }
