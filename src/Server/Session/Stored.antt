-- ===== src/Server/Session/Stored.antt =====
-- A stored response that a request resumes, in internal/server/session.go.
use codex_model_tester.Base.{
  Bool, In, In-keep, IsMap, List, Option, Str, [], arith, false, filter_option, keep_values-IsMap,
  lookup, none, not, refl, some, str_eq, sym, trim_space, ℕ, ◌∙◌, ◌∷◌, ◌≡◌,
}
use codex_model_tester.Server.Session.{
  SessionResolution, new_resolution, set_some_key, resume_from, keyed_resolution,
}
use codex_model_tester.Server.Session.Resume.{Resumes}
use codex_model_tester.Turn.Types.{InputItem}
use codex_model_tester.Turn.Request.{NormalizedRequest}
use codex_model_tester.Conversation.Continuation.{
  ContinuationRecord, ContinuationManager, is_expired, sweep, list_all, list_by_trimmed,
}
use codex_model_tester.Conversation.Continuation.Listing.{In-list_all}
use codex_model_tester.Conversation.Continuation.Expiry.{lookup-sweep}
use codex_model_tester.Conversation.Key.{derive}
use codex_model_tester.Accounts.Types.{Time}

-- The stored response that a resolution resumes, and what it took from it.
pub record Continues (m : ContinuationManager) (n : NormalizedRequest) (s : SessionResolution)
    : Type 0 where
  pub stored : ContinuationRecord
  pub id : Str
  pub found : lookup id m.records ≡ some stored
  pub resumes : Resumes stored n s.request.request.input
  pub previous : s.request.request.previous_response_id ≡ stored.response_id
  pub account : s.preferred_account_id ≡ stored.account_id
  pub model : s.request.request.model ≡ stored.model

abbrev pub Stored : ContinuationManager → ContinuationRecord → Type 0
Stored m r = (id : Str) × (lookup id m.records ≡ some r)

pub list_all-Stored :
    (now : Time) (r : ContinuationRecord) (m : ContinuationManager)
    → IsMap m.records
    → In r (list_all now m).1
    → Stored m r
list_all-Stored now r m h i = let (id, found, live) = (In-list_all now r m h).0 i in (id, found)

sweep-IsMap : (now : Time) (m : ContinuationManager) → IsMap m.records → IsMap (sweep now m).records
unfolding sweep
sweep-IsMap now m h = keep_values-IsMap (λ r. not (is_expired now r)) m.records h

filter_option-some :
    (p : ContinuationRecord → Bool) (r : ContinuationRecord) (found : Option ContinuationRecord)
    → filter_option p found ≡ some r
    → found ≡ some r
filter_option-some p r none h = cc
filter_option-some p r (some q) h = ground arith

sweep-Stored :
    (now : Time) (r : ContinuationRecord) (m : ContinuationManager)
    → IsMap m.records
    → Stored (sweep now m) r
    → Stored m r
sweep-Stored now r m h (id, e) = (
  id,
  filter_option-some (λ q. not (is_expired now q)) r (lookup id m.records)
      (sym (lookup-sweep now id m h) ∙ e),
)

pub by_trimmed-Stored :
    (now : Time) (key : Str) (r : ContinuationRecord) (m : ContinuationManager)
    → IsMap m.records
    → In r (list_by_trimmed now key m).1
    → Stored m r
unfolding list_by_trimmed
by_trimmed-Stored now [] r m h i = absurd i
by_trimmed-Stored now (b ∷ key) r m h i =
    list_all-Stored now r m h
      (In-keep (λ q. str_eq (trim_space q.conversation_key) (b ∷ key)) r (list_all now m).1 i).0

-- The manager after a listing holds nothing that it did not hold before.
pub by_trimmed-rest :
    (now : Time) (key : Str) (m : ContinuationManager)
    → IsMap m.records
    → IsMap (list_by_trimmed now key m).0.records
      × ((r : ContinuationRecord) → Stored (list_by_trimmed now key m).0 r → Stored m r)
unfolding list_by_trimmed list_all
by_trimmed-rest now [] m h = (h, λ r e. e)
by_trimmed-rest now (b ∷ key) m h = (sweep-IsMap now m h, λ r e. sweep-Stored now r m h e)

pub Resumes-same :
    (r : ContinuationRecord) (n p : NormalizedRequest) (rest : List InputItem)
    → p.request.model ≡ n.request.model
    → p.request.instructions ≡ n.request.instructions
    → p.request.input ≡ n.request.input
    → Resumes r p rest
    → Resumes r n rest
Resumes-same r n p rest m i x h = record {
  same_model = rw m at h.same_model;
  same_instructions = rw i at h.same_instructions;
  split = sym x ∙ h.split;
  old = h.old;
  new = h.new;
  allowed = h.allowed;
}

-- The texts and the input of a request that the key leaves.
pub record SameRequest (s : SessionResolution) (n : NormalizedRequest) : Type 0 where
  pub model : s.request.request.model ≡ n.request.model
  pub instructions : s.request.request.instructions ≡ n.request.instructions
  pub input : s.request.request.input ≡ n.request.input
  pub fresh : s.implicit_resume ≡ false

pub set_some_key-same :
    (key : Str) (n : NormalizedRequest) → SameRequest (set_some_key key (new_resolution n)) n
set_some_key-same [] n = record { model = refl; instructions = refl; input = refl; fresh = refl }
set_some_key-same (c ∷ key) n = record {
  model = refl;
  instructions = refl;
  input = refl;
  fresh = refl;
}

pub keyed-same :
    (sum256 : Str → List ℕ) (strip_reminder : Str → Str) (n : NormalizedRequest)
    → SameRequest (keyed_resolution sum256 strip_reminder n) n
unfolding keyed_resolution
keyed-same sum256 strip_reminder n =
    elim (trim_space n.request.prompt_cache_key)
      as (λ key.
        SameRequest
          (elim key [
            | [] ↦ set_some_key (derive sum256 strip_reminder n.request) (new_resolution n)
            | c ∷ key ↦ record (new_resolution n) { conversation_key = c ∷ key }
          ])
          n) [
            | [] ↦ set_some_key-same (derive sum256 strip_reminder n.request) n
            | c ∷ key ↦ record { model = refl; instructions = refl; input = refl; fresh = refl }
          ]

pub resume_from-Continues :
    (m : ContinuationManager) (n : NormalizedRequest) (s : SessionResolution)
    (r : ContinuationRecord) (rest : List InputItem)
    → Stored m r
    → Resumes r n rest
    → Continues m n (resume_from r rest s)
resume_from-Continues m n s r rest (id, found) h = record {
  stored = r;
  id = id;
  found = found;
  resumes = h;
  previous = refl;
  account = refl;
  model = refl;
}

pub set_some_key-Continues :
    (m : ContinuationManager) (n : NormalizedRequest) (key : Str) (s : SessionResolution)
    → Continues m n s
    → Continues m n (set_some_key key s)
set_some_key-Continues m n [] s h = h
set_some_key-Continues m n (c ∷ key) s h = record {
  stored = h.stored;
  id = h.id;
  found = h.found;
  resumes = h.resumes;
  previous = h.previous;
  account = h.account;
  model = h.model;
}
