-- ===== src/Conversation/Continuation/Listing.antt =====
-- What ListAll and ListByConversation of internal/conversation/continuation.go return.
use codex_model_tester.Base.{
  ◌≡◌, refl, sym, ◌∙◌, inl, inr, ◌↔◌, Bool, false, not, Option, none, some, [], ◌∷◌, map, arith,
  Str, Dict, str_eq_iff, str_eq_refl, lookup, keep_values, lookup-keep_values, filter_option, IsMap,
  keep_values-IsMap, In,
}
use codex_model_tester.Accounts.Types.{Time}
use codex_model_tester.Accounts.Rotation.Sorting.{In-sort_func, sort_func-In}
use codex_model_tester.Conversation.Continuation.{
  ContinuationRecord, ContinuationManager, is_expired, sweep, by_age, list_all,
}

-- The key of a value of a map.
value-lookup :
    (r : ContinuationRecord) (m : Dict ContinuationRecord)
    → IsMap m
    → In r (map (λ e. e.1) m)
    → (k : Str) × (lookup k m ≡ some r)
unfolding lookup
value-lookup r [] h i = absurd i
value-lookup r ((j, w) ∷ m) h (inl e) = (j, ground (arith, str_eq_refl j))
value-lookup r ((j, w) ∷ m) h (inr i) =
    let (k, e) = value-lookup r m h.1 i in (k, ground (arith, str_eq_iff j k))

lookup-value :
    (k : Str) (r : ContinuationRecord) (m : Dict ContinuationRecord)
    → lookup k m ≡ some r
    → In r (map (λ e. e.1) m)
unfolding lookup
lookup-value k r [] h = cc
lookup-value k r ((j, w) ∷ m) h = ground (arith, lookup-value k r m)

-- What a value of a swept map was before the sweep.
kept-lookup :
    (now : Time) (k : Str) (r : ContinuationRecord) (found : Option ContinuationRecord)
    → filter_option (λ s. not (is_expired now s)) found ≡ some r
    → (found ≡ some r) × (is_expired now r ≡ false)
kept-lookup now k r none h = cc
kept-lookup now k r (some s) h = ground arith

list_all-lookup :
    (now : Time) (r : ContinuationRecord) (m : ContinuationManager)
    → IsMap m.records
    → In r (list_all now m).1
    → (id : Str) × (lookup id m.records ≡ some r) × (is_expired now r ≡ false)
unfolding list_all sweep
list_all-lookup now r m h i =
    let p : ContinuationRecord → Bool = λ s. not (is_expired now s) in
    let (k, e) =
      value-lookup r (keep_values p m.records) (keep_values-IsMap p m.records h)
        (sort_func-In by_age r (map (λ e. e.1) (keep_values p m.records)) i) in
    let (found, live) =
      kept-lookup now k r (lookup k m.records) (sym (lookup-keep_values p k m.records h) ∙ e) in
    (k, found, live)

lookup-list_all :
    (now : Time) (id : Str) (r : ContinuationRecord) (m : ContinuationManager)
    → IsMap m.records
    → lookup id m.records ≡ some r
    → is_expired now r ≡ false
    → In r (list_all now m).1
unfolding list_all sweep
lookup-list_all now id r m h e x =
    let p : ContinuationRecord → Bool = λ s. not (is_expired now s) in
    In-sort_func by_age r (map (λ e. e.1) (keep_values p m.records)) (
      lookup-value id r (keep_values p m.records)
        (lookup-keep_values p id m.records h ∙ rw e (rw x refl)))

-- In a map of continuations, `ListAll` returns exactly those that are stored under some ID and
-- have not expired.
pub In-list_all :
    (now : Time) (r : ContinuationRecord) (m : ContinuationManager)
    → IsMap m.records
    → In r (list_all now m).1
      ↔ ((id : Str) × (lookup id m.records ≡ some r) × (is_expired now r ≡ false))
In-list_all now r m h = (list_all-lookup now r m h, λ (id, e, x). lookup-list_all now id r m h e x)
