-- ===== src/Server/Session.antt =====
-- resolveSession of internal/server/session.go and sessionResolution of public.go: which
-- earlier response a request continues. Readings of the clock are arguments; SHA-256 and the regular
-- expression of conversation/key.go are parameters.
pub mod History
pub mod Resume
pub mod Resolve
pub mod Explicit
pub mod Tests
pub mod Stored
use codex_model_tester.Base.{
  Bool, Dict, List, Option, Str, [], false, if◌then◌else◌, is_empty, keep, none, not, some,
  trim_space, true, ℕ, ◌++◌, ◌||◌, ◌∷◌,
}
use codex_model_tester.Turn.Types.{InputItem}
use codex_model_tester.Turn.Request.{Request, NormalizedRequest, set_input}
use codex_model_tester.Turn.ToolNames.{contains, merge_tool_name_aliases}
use codex_model_tester.Conversation.Continuation.{
  ContinuationRecord, ContinuationManager, get, list_all, list_by_conversation,
}
use codex_model_tester.Conversation.Key.{derive}
use codex_model_tester.Accounts.Types.{Time}
use codex_model_tester.Server.Resumption.{
  has_prior_assistant_or_tool_history, can_implicitly_resume, trimmed_continuation_input,
}

pub record SessionResolution : Type 0 where
  pub request : NormalizedRequest
  pub original : NormalizedRequest
  pub preferred_account_id : Str
  pub turn_state : Str
  pub conversation_key : Str
  pub explicit_previous : Bool
  pub implicit_resume : Bool
  pub replay_available : Bool

abbrev pub new_resolution : NormalizedRequest → SessionResolution
new_resolution n = record {
  request = n;
  original = n;
  preferred_account_id = [];
  turn_state = [];
  conversation_key = [];
  explicit_previous = false;
  implicit_resume = false;
  replay_available = false;
}

abbrev pub with_request : (Request → Request) → NormalizedRequest → NormalizedRequest
with_request f n = record n { request = f n.request }

abbrev pub set_model : Str → NormalizedRequest → NormalizedRequest
set_model model n = with_request (λ r. record r { model = model }) n

abbrev pub set_cache_key : Str → NormalizedRequest → NormalizedRequest
set_cache_key key n = with_request (λ r. record r { prompt_cache_key = key }) n

abbrev pub set_previous : Str → NormalizedRequest → NormalizedRequest
set_previous id n = with_request (λ r. record r { previous_response_id = id }) n

abbrev pub set_aliases : Dict Str → NormalizedRequest → NormalizedRequest
set_aliases previous n = record n {
  tool_name_aliases = merge_tool_name_aliases n.tool_name_aliases previous;
}

-- A key of the conversation goes into the resolution and into both requests.
abbrev pub set_key : Str → SessionResolution → SessionResolution
set_key key s = record s {
  conversation_key = key;
  request = set_cache_key key s.request;
  original = set_cache_key key s.original;
}

-- `if key != ""`
abbrev pub set_some_key : Str → SessionResolution → SessionResolution
set_some_key [] s = s
set_some_key (c ∷ key) s = set_key (c ∷ key) s

-- What the resolution takes from the record that it resumes.
abbrev pub resume_from : ContinuationRecord → List InputItem → SessionResolution → SessionResolution
resume_from stored trimmed s = record s {
  request =
      set_aliases stored.tool_name_aliases
        (set_model stored.model (set_previous stored.response_id (set_input trimmed s.request)));
  original = set_aliases stored.tool_name_aliases (set_model stored.model s.original);
  preferred_account_id = stored.account_id;
  turn_state = trim_space stored.turn_state;
  implicit_resume = true;
}

abbrev pub with_stored :
    ContinuationRecord → Option (List InputItem) → Option (ContinuationRecord × List InputItem)
with_stored r none = none
with_stored r (some trimmed) = some (r, trimmed)

-- One round of the loops over stored records.
unfoldable pub resumable :
    NormalizedRequest → ContinuationRecord → Option (ContinuationRecord × List InputItem)
unfolding can_implicitly_resume trimmed_continuation_input
resumable n r =
    if can_implicitly_resume r n
    then with_stored r (trimmed_continuation_input n.request.input r)
    else none

abbrev pub or_else {ℓ} : {A : Type ℓ} → Option A → Option A → Option A
or_else none rest = rest
or_else (some x) rest = some x

-- The first record that the request can resume, with the rest of the input.
unfoldable pub first_resumable :
    NormalizedRequest → List ContinuationRecord → Option (ContinuationRecord × List InputItem)
unfolding resumable
first_resumable n [] = none
first_resumable n (r ∷ rs) = or_else (resumable n r) (first_resumable n rs)

-- `excludedIDs`
unfoldable pub excluded_ids : List ContinuationRecord → List Str
excluded_ids [] = []
excluded_ids (r ∷ rs) =
    let rest = excluded_ids rs in
    if is_empty (trim_space r.response_id) then rest else trim_space r.response_id ∷ rest

abbrev pub fall_back :
    Option (ContinuationRecord × List InputItem) → SessionResolution → SessionResolution
fall_back none s = s
fall_back (some (r, trimmed)) s =
    set_some_key (trim_space r.conversation_key) (resume_from r trimmed s)

unfoldable pub resolve_implicit_resume_fallback :
    Time
    → List ContinuationRecord
    → SessionResolution
    → ContinuationManager
    → ContinuationManager × SessionResolution
unfolding has_prior_assistant_or_tool_history excluded_ids first_resumable list_all
resolve_implicit_resume_fallback now excluded s m =
    let (m', records) = list_all now m in
    let others = keep (λ r. not (contains r.response_id (excluded_ids excluded))) records in
    if has_prior_assistant_or_tool_history s.request.request.input
    then (m', fall_back (first_resumable s.request others) s)
    else (m, s)

-- Where a record of the conversation can be resumed, or else the fallback.
abbrev pub resume_or_fall_back :
    Time
    → Option (ContinuationRecord × List InputItem)
    → List ContinuationRecord
    → SessionResolution
    → ContinuationManager
    → ContinuationManager × SessionResolution
resume_or_fall_back now (some (r, trimmed)) records s m = (m, resume_from r trimmed s)
resume_or_fall_back now none records s m = resolve_implicit_resume_fallback now records s m

-- `none` stands for errInvalidPreviousResponseID.
abbrev pub Resolved : Type 0
Resolved = ContinuationManager × Option SessionResolution

abbrev pub resolved : ContinuationManager × SessionResolution → Resolved
resolved (m, s) = (m, some s)

module _ (sum256 : Str → List ℕ) (strip_reminder : Str → Str) where
  abbrev pub key_or_derived : Str → Request → Str
  key_or_derived [] r = derive sum256 strip_reminder r
  key_or_derived (c ∷ key) r = c ∷ key

  -- A request that names the response it continues, with the model it ends up with.
  unfoldable pub continue_model : ContinuationRecord → NormalizedRequest → NormalizedRequest
  continue_model r n =
      if not n.model_explicit || is_empty (trim_space n.request.model)
      then set_model r.model n
      else n

  abbrev pub with_replay : List InputItem → SessionResolution → SessionResolution
  with_replay [] s = s
  with_replay (h ∷ history) s = record s {
    original = set_previous [] (set_input ((h ∷ history) ++ s.original.request.input) s.original);
    replay_available = true;
  }

  unfoldable pub continue_from : ContinuationRecord → NormalizedRequest → SessionResolution
  unfolding continue_model derive
  continue_from r n =
      let n' = continue_model r n in
      let keyed =
        set_some_key (key_or_derived (trim_space r.conversation_key) n'.request)
          (new_resolution n') in
      with_replay r.input_history record keyed {
        request = set_aliases r.tool_name_aliases keyed.request;
        original = set_aliases r.tool_name_aliases keyed.original;
        preferred_account_id = r.account_id;
        turn_state = trim_space r.turn_state;
        explicit_previous = true;
      }

  abbrev pub continued :
      NormalizedRequest → ContinuationManager × Option ContinuationRecord → Resolved
  continued n (m, none) = (m, none)
  continued n (m, some r) = (m, some (continue_from r n))

  -- The key of a request that names none is derived, and goes into the requests too.
  unfoldable pub keyed_resolution : NormalizedRequest → SessionResolution
  unfolding derive
  keyed_resolution n = elim (trim_space n.request.prompt_cache_key) [
    | [] ↦ set_some_key (derive sum256 strip_reminder n.request) (new_resolution n)
    | c ∷ key ↦ record (new_resolution n) { conversation_key = c ∷ key }
  ]

  abbrev pub resume_conversation :
      Time
      → Time
      → NormalizedRequest
      → SessionResolution
      → ContinuationManager
      → ContinuationManager × SessionResolution
  resume_conversation now later n s m =
      let (m', records) = list_by_conversation now s.conversation_key m in
      resume_or_fall_back later (first_resumable n records) records s m'

  unfoldable pub resolve_session : Time → Time → NormalizedRequest → ContinuationManager → Resolved
  unfolding continue_from keyed_resolution first_resumable resolve_implicit_resume_fallback get
      list_by_conversation
  resolve_session now later n m =
      let s = keyed_resolution n in
      if not (is_empty n.request.previous_response_id)
      then continued n (get now n.request.previous_response_id m)
      else if is_empty (trim_space n.request.model)
      then (m, some (new_resolution n))
      else if is_empty s.conversation_key
      then resolved (resolve_implicit_resume_fallback later [] s m)
      else resolved (resume_conversation now later n s m)
