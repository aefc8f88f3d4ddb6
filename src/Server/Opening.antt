-- ===== src/Server/Opening.antt =====
-- openStream of internal/server/public.go: which streams a resolved request opens, one after the
-- other. Whether an opening fails is the upstream's answer, an argument.
pub mod Unlinked
use codex_model_tester.Base.{
  Bool, List, [], bytes, false, if◌then◌else◌, is_empty, is_some, not, str_eq, trim_space, ◌&&◌,
  ◌||◌, ◌∷◌,
}
use codex_model_tester.Server.Session.{SessionResolution}
use codex_model_tester.Turn.Request.{ToolDefinition, NormalizedRequest}

pub data Transport : Type 0 where
  http_stream ws_stream : Transport

-- `openWSStream` on its own, and `openStreamWithFailover` with one of the two ways to open a stream.
pub data Opening : Type 0 where
  once : SessionResolution → Opening
  with_failover : Transport → SessionResolution → Opening

unfoldable pub is_web_search : List ToolDefinition → Bool
is_web_search [] = false
is_web_search (t ∷ ts) = str_eq (trim_space t.type) (bytes "web_search") || is_web_search ts

unfoldable pub request_uses_hosted_web_search : NormalizedRequest → Bool
unfolding is_web_search
request_uses_hosted_web_search n = is_web_search n.request.tools

-- The transport for a request that is sent without a link.
abbrev pub transport_of : NormalizedRequest → Transport
transport_of n = if request_uses_hosted_web_search n then ws_stream else http_stream

abbrev pub replay : SessionResolution → SessionResolution
replay s = record s { request = s.original; turn_state = []; explicit_previous = false }

abbrev pub fallback : SessionResolution → SessionResolution
fallback s = record s {
  request = s.original;
  preferred_account_id = [];
  turn_state = [];
  implicit_resume = false;
}

-- An opening with a link, and what follows when it fails.
abbrev pub open_linked : (Opening → Bool) → SessionResolution → List Opening
open_linked failed s =
    once s
    ∷ (if not (failed (once s)) || not s.implicit_resume
        then []
        else with_failover http_stream (fallback s) ∷ [])

unfoldable pub open_stream : (Opening → Bool) → SessionResolution → List Opening
unfolding request_uses_hosted_web_search
open_stream failed s =
    if not (is_empty s.request.request.previous_response_id)
    then (if s.explicit_previous && s.replay_available
        then with_failover (transport_of s.original) (replay s) ∷ []
        else open_linked failed s)
    else if is_some s.request.generate
    then with_failover ws_stream s ∷ []
    else with_failover (transport_of s.request) s ∷ []
