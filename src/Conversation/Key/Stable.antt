-- ===== src/Conversation/Key/Stable.antt =====
-- The key of internal/conversation/key.go along a conversation.
use codex_model_tester.Base.{All, List, Str, [], ap, false, none, refl, some, ℕ, ◌++◌, ◌∷◌, ◌≡◌}
use codex_model_tester.Conversation.Key.{
  is_model_item, prefix_to_model, extract_seed, key_of, derive,
}
use codex_model_tester.Turn.Types.{InputItem}
use codex_model_tester.Turn.Request.{Request}

none_append :
    (more : List InputItem) → All (λ i. is_model_item i ≡ false) more → prefix_to_model more ≡ none
unfolding prefix_to_model
none_append [] h = refl
none_append (i ∷ more) h = rw (none_append more h.1, h.0) refl

prefix-append :
    (items more : List InputItem)
    → All (λ i. is_model_item i ≡ false) more
    → prefix_to_model (items ++ more) ≡ prefix_to_model items
unfolding prefix_to_model
prefix-append [] more h = none_append more h
prefix-append (i ∷ items) more h = rw (prefix-append items more h) refl

abbrev pub with_items : List InputItem → Request → Request
with_items items r = record r { input = items }

seed-append :
    (sum256 : Str → List ℕ) (strip_reminder : Str → Str) (r : Request)
    (items more p : List InputItem)
    → All (λ i. is_model_item i ≡ false) more
    → prefix_to_model items ≡ some p
    → extract_seed sum256 strip_reminder (with_items (items ++ more) r)
      ≡ extract_seed sum256 strip_reminder (with_items items r)
unfolding extract_seed
seed-append sum256 strip_reminder r items more p h e = rw (prefix-append items more h, e) refl

-- Once the input of a request has an item of the model, the conversation's key is the same when
-- items of which none is the model's are added after it.
pub derive-append :
    (sum256 : Str → List ℕ) (strip_reminder : Str → Str) (r : Request)
    (items more p : List InputItem)
    → All (λ i. is_model_item i ≡ false) more
    → prefix_to_model items ≡ some p
    → derive sum256 strip_reminder (with_items (items ++ more) r)
      ≡ derive sum256 strip_reminder (with_items items r)
unfolding derive
derive-append sum256 strip_reminder r items more p h e =
    ap (key_of sum256 strip_reminder r.model) (seed-append sum256 strip_reminder r items more p h e)
