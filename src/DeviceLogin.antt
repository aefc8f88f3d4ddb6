-- ===== src/DeviceLogin.antt =====
-- internal/devicelogin: logins by a code that the user enters elsewhere. Each start runs a goroutine
-- that polls; a step is a call, a tick of a goroutine up to the storing of the account, what it does
-- after that, or its end by deadline or cancellation.
pub mod Events
pub mod Moves
pub mod Outcomes
pub mod Steps
pub mod Final
pub mod Stored
pub mod Tests
use codex_model_tester.Base.{
  ℕ, ◌+◌, ◌*◌, Bool, true, false, not, ◌&&◌, ◌||◌, Option, none, some, List, [], ◌∷◌, ◌++◌,
  if◌then◌else◌, ltb, leb, ◌==◌, max, Str, bytes, Dict, is_empty, trim_space, has_prefix, lookup,
  insert, erase, keep_values, zero, suc, get_elem?, is_some, to_lower, contains_str,
}
use codex_model_tester.Accounts.Types.{Time, OauthToken, Record}
use codex_model_tester.Accounts.Store.{Error, Result, ok, err, Env, Service, Outcome}
use codex_model_tester.Accounts.Service.{upsert_from_token}

pub data DeviceLoginStatus : Type 0 where
  login_pending login_ready login_expired login_error : DeviceLoginStatus

pub record DeviceLoginRecord : Type 0 where
  pub login_id : Str
  pub auth_url : Str
  pub user_code : Str
  pub status : DeviceLoginStatus
  pub error : Str
  pub created_at : Time
  pub expires_at : Time

-- The interval in nanoseconds. `cancel` is the goroutine's end, a step below.
pub record PendingLogin : Type 0 where
  pub login : DeviceLoginRecord
  pub device_auth_id : Str
  pub interval : ℕ

-- Where a goroutine of `poll` stands: before its next tick, behind `UpsertFromToken` with the result
-- of that, or at its end.
pub data Stage : Type 0 where
  polls : Stage
  stored : Result Record → Stage
  returned : Stage

pub record Goroutine : Type 0 where
  pub login_id : Str
  pub stage : Stage

-- `polling` has every goroutine that was started, in that order.
pub record DeviceLoginService : Type 0 where
  pub accounts : Service
  pub timeout : ℕ
  pub logins : Dict PendingLogin
  pub polling : List Goroutine

-- `RequestDeviceCode`'s answer; the interval is an int64 where it is not negative.
pub record DeviceCodeResponse : Type 0 where
  pub user_code : Str
  pub device_auth_id : Str
  pub interval : ℕ

unfoldable pub new_device_login_service : Service → ℕ → DeviceLoginService
new_device_login_service accounts timeout = record {
  accounts = accounts;
  timeout = timeout;
  logins = [];
  polling = [];
}

-- `format` prints the time with the layout of the code.
unfoldable pub new_login : (Time → Str) → Str → ℕ → DeviceCodeResponse → Time → PendingLogin
new_login format url timeout resp now = record {
  login = record {
    login_id = bytes "login_" ++ format now;
    auth_url = url;
    user_code = resp.user_code;
    status = login_pending;
    error = [];
    created_at = now;
    expires_at = now + timeout;
  };
  device_auth_id = resp.device_auth_id;
  interval = max resp.interval 5 * 1000000000;
}

-- `Start` once the code is there; where the request fails, nothing changes.
unfoldable pub start :
    (Time → Str)
    → Str
    → DeviceCodeResponse
    → Time
    → DeviceLoginService
    → DeviceLoginService × DeviceLoginRecord
unfolding new_login
start format url resp now s =
    let l = new_login format url s.timeout resp now in
    (
      record s {
        logins = insert l.login.login_id l s.logins;
        polling = s.polling ++ record { login_id = l.login.login_id; stage = polls } ∷ [];
      },
      l.login,
    )

abbrev login_of : Option PendingLogin → Option DeviceLoginRecord
login_of none = none
login_of (some l) = some l.login

unfoldable pub get : Str → DeviceLoginService → Option DeviceLoginRecord
get id s = login_of (lookup id s.logins)

abbrev pub is_pending : DeviceLoginStatus → Bool
is_pending login_pending = true
is_pending _ = false

-- `setStatus` with `expected` empty, or pending: its only two values.
abbrev pub set_login : Bool → DeviceLoginStatus → Str → PendingLogin → PendingLogin
set_login only_pending status message l =
    if only_pending && not (is_pending l.login.status)
    then l
    else record l { login = record (l.login) { status = status; error = message } }

abbrev pub put_found :
    Str
    → (PendingLogin → PendingLogin)
    → Option PendingLogin
    → Dict PendingLogin
    → Dict PendingLogin
put_found id f none m = m
put_found id f (some l) m = insert id (f l) m

unfoldable pub set_status :
    Str → Bool → DeviceLoginStatus → Str → DeviceLoginService → DeviceLoginService
set_status id only_pending status message s = record s {
  logins = put_found id (set_login only_pending status message) (lookup id s.logins) s.logins;
}

unfoldable pub set_stage : ℕ → Stage → List Goroutine → List Goroutine
set_stage i stage [] = []
set_stage zero stage (g ∷ gs) = record g { stage = stage } ∷ gs
set_stage (suc i) stage (g ∷ gs) = g ∷ set_stage i stage gs

-- The goroutine returns.
abbrev pub stop : ℕ → DeviceLoginService → DeviceLoginService
stop i s = record s { polling = set_stage i returned s.polling }

-- What `PollDeviceCode` and then `ExchangeAuthorizationCode` answer.
pub data PollAnswer : Type 0 where
  poll_error exchange_error : Str → PollAnswer
  no_result : PollAnswer
  exchanged : OauthToken → Str → PollAnswer

unfoldable pub is_still_pending : Str → Bool
unfolding to_lower contains_str
is_still_pending text =
    contains_str (to_lower text) (bytes "authorization_pending")
    || contains_str (to_lower text) (bytes "not found")

abbrev pub fail_with : ℕ → Str → Str → DeviceLoginService → DeviceLoginService
fail_with i id message s = stop i (set_status id false login_error message s)

-- The goroutine goes on with what storing the account gave.
abbrev pub after_upsert : ℕ → Outcome Record → DeviceLoginService → DeviceLoginService
after_upsert i (accounts, result) s = record s {
  accounts = accounts;
  polling = set_stage i (stored result) s.polling;
}

-- One tick of the goroutine at `i`, whose login is `id`, up to the storing of the account.
unfoldable pub tick_login : Env → ℕ → Str → PollAnswer → DeviceLoginService → DeviceLoginService
unfolding set_status is_still_pending set_stage
tick_login env i id (poll_error text) s = if is_still_pending text then s else fail_with i id text s
tick_login env i id no_result s = s
tick_login env i id (exchange_error text) s = fail_with i id text s
tick_login env i id (exchanged token account_id) s =
    if is_empty (trim_space account_id)
    then fail_with i id (bytes "oauth exchange did not return account_id") s
    else after_upsert i (upsert_from_token env account_id token s.accounts) s

-- A goroutine that waits for its next tick has it; any other does not.
abbrev pub tick_goroutine :
    Env → ℕ → PollAnswer → Stage → Str → DeviceLoginService → DeviceLoginService
tick_goroutine env i a polls id s = tick_login env i id a s
tick_goroutine env i a _ id s = s

unfoldable pub tick : Env → ℕ → PollAnswer → DeviceLoginService → DeviceLoginService
unfolding tick_login
tick env i a s = elim (get_elem? s.polling i) [
  | none ↦ s
  | some g ↦ tick_goroutine env i a g.stage g.login_id s
]

-- The end of the tick, once the account was stored or not; `describe` is the error's text.
abbrev pub settle_goroutine :
    (Error → Str) → ℕ → Stage → Str → DeviceLoginService → DeviceLoginService
settle_goroutine describe i (stored (ok r)) id s = stop i (set_status id false login_ready [] s)
settle_goroutine describe i (stored (err e)) id s = fail_with i id (describe e) s
settle_goroutine describe i _ id s = s

unfoldable pub settle : (Error → Str) → ℕ → DeviceLoginService → DeviceLoginService
unfolding set_status set_stage
settle describe i s = elim (get_elem? s.polling i) [
  | none ↦ s
  | some g ↦ settle_goroutine describe i g.stage g.login_id s
]

-- The goroutine sees that its context is done.
abbrev pub finish_goroutine : ℕ → Stage → Str → DeviceLoginService → DeviceLoginService
finish_goroutine i polls id s =
    stop i (set_status id true login_expired (bytes "device login expired") s)
finish_goroutine i _ id s = s

unfoldable pub finish : ℕ → DeviceLoginService → DeviceLoginService
unfolding set_status set_stage
finish i s = elim (get_elem? s.polling i) [
  | none ↦ s
  | some g ↦ finish_goroutine i g.stage g.login_id s
]

-- The goroutine ends by its cancelled context, in a later step.
unfoldable pub cancel : Str → DeviceLoginService → DeviceLoginService × Bool
cancel id s =
    if is_some (lookup id s.logins)
    then (record s { logins = erase id s.logins }, true)
    else (s, false)

abbrev pub is_over : Time → PendingLogin → Bool
is_over now l = ltb l.login.expires_at now && not (is_pending l.login.status)

unfoldable pub delete_expired : Time → DeviceLoginService → DeviceLoginService
delete_expired now s = record s { logins = keep_values (λ l. not (is_over now l)) s.logins }
