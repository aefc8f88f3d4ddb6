-- ===== src/DeviceLogin/Events.antt =====
-- internal/devicelogin/service.go as a state machine of its calls and its goroutines' steps.
use codex_model_tester.Base.{Bool, List, Str, [], bytes, false, str_eq, ℕ, ◌++◌, ◌∷◌}
use codex_model_tester.DeviceLogin.{
  DeviceLoginService, DeviceCodeResponse, start, PollAnswer, tick, settle, finish, cancel,
  delete_expired,
}
use codex_model_tester.Accounts.Types.{Time}
use codex_model_tester.Accounts.Store.{Error, Env}

pub data Event : Type 0 where
  started : DeviceCodeResponse → Time → Event
  ticked : Env → PollAnswer → ℕ → Event
  settled finished : ℕ → Event
  cancelled : Str → Event
  swept : Time → Event

-- What the steps share: the layout of a time, the upstream's address and the text of an error.
pub record Setting : Type 0 where
  pub format : Time → Str
  pub url : Str
  pub describe : Error → Str

unfoldable pub step : Setting → Event → DeviceLoginService → DeviceLoginService
unfolding start tick settle finish cancel delete_expired
step c (started resp now) s = (start c.format c.url resp now s).0
step c (ticked env answer i) s = tick env i answer s
step c (settled i) s = settle c.describe i s
step c (finished i) s = finish i s
step c (cancelled id) s = (cancel id s).0
step c (swept now) s = delete_expired now s

unfoldable pub run : Setting → List Event → DeviceLoginService → DeviceLoginService
unfolding step
run c [] s = s
run c (e ∷ es) s = run c es (step c e s)

-- Whether the event starts a login under this ID.
abbrev pub starts : Setting → Str → Event → Bool
starts c id (started resp now) = str_eq (bytes "login_" ++ c.format now) id
starts c id (ticked env answer j) = false
starts c id (settled j) = false
starts c id (finished j) = false
starts c id (cancelled j) = false
starts c id (swept now) = false
