-- ===== src/Models/Normalize/Distinct.antt =====
-- The IDs and the efforts of the entries that internal/models/normalize.go makes.
use codex_model_tester.Json.{first_non_empty}
use codex_model_tester.Base.{
  ◌≡◌, refl, sym, subst, ap, inl, inr, true, false, ◌||◌, Option, none, some, List, [], ◌∷◌, ◌++◌,
  map, arith, Bool-cases, Option-cases, Str, Dict, is_empty, trim_space, lookup, insert,
  lookup-insert, str_eq, str_eq_iff, str_eq_refl, is_some, In, All, In-append,
}
use codex_model_tester.Models.Entry.{ReasoningEffort, Entry}
use codex_model_tester.Models.Catalog.{StrSet, has, entries_of}
use codex_model_tester.Models.Normalize.{
  BackendModelEntry, effort_key, dedupe_from, dedupe_efforts, normalize_efforts,
  normalize_backend_entry, add_entry, add_entries, normalize_backend_entries,
}

-- No text stands twice.
abbrev pub IsDistinct : List Str → Type 0
IsDistinct [] = Unit
IsDistinct (k ∷ ks) = (In k ks → ⊥) × IsDistinct ks

unseen :
    (seen : StrSet) (k j : Str)
    → has k (insert j tt seen) ≡ false
    → (has k seen ≡ false) × (str_eq j k ≡ false)
unseen seen k j h = ground (arith, lookup-insert j k tt seen)

dedupe_from-unseen :
    (seen : StrSet) (k : Str) (es : List ReasoningEffort)
    → In k (map effort_key (dedupe_from seen es))
    → has k seen ≡ false
unfolding dedupe_from
dedupe_from-unseen seen k [] i = absurd i
dedupe_from-unseen seen k (e ∷ es) i =
    elim (Bool-cases (is_empty (effort_key e) || has (effort_key e) seen)) [
      | inl s ↦ dedupe_from-unseen seen k es (rw s at i)
      | inr s ↦ elim (rw s at i) [
        | inl q ↦ subst (λ x. has x seen ≡ false) q (ground arith)
        | inr j ↦
            (unseen seen k (effort_key e)
              (dedupe_from-unseen (insert (effort_key e) tt seen) k es j)).0
      ]
    ]

repeated : (seen : StrSet) (k : Str) → has k (insert k tt seen) ≡ false → ⊥
repeated seen k h = ground (arith, lookup-insert k k tt seen, str_eq_refl k)

dedupe_from-IsDistinct :
    (seen : StrSet) (es : List ReasoningEffort) → IsDistinct (map effort_key (dedupe_from seen es))
unfolding dedupe_from
dedupe_from-IsDistinct seen [] = tt
dedupe_from-IsDistinct seen (e ∷ es) =
    elim (Bool-cases (is_empty (effort_key e) || has (effort_key e) seen)) [
      | inl s ↦ rw s (dedupe_from-IsDistinct seen es)
      | inr s ↦ rw s (
        (λ i.
            repeated seen (effort_key e)
              (dedupe_from-unseen (insert (effort_key e) tt seen) (effort_key e) es i)),
        dedupe_from-IsDistinct (insert (effort_key e) tt seen) es,
      )
    ]

normalize_efforts-IsDistinct :
    (raw : BackendModelEntry) → IsDistinct (map effort_key (normalize_efforts raw))
unfolding normalize_efforts dedupe_efforts
normalize_efforts-IsDistinct raw = dedupe_from-IsDistinct [] _

-- An entry with distinct efforts.
abbrev pub HasDistinct : Entry → Type 0
HasDistinct e = IsDistinct (map effort_key e.supported_reasoning_efforts)

abbrev efforts_of : Option Entry → List ReasoningEffort
efforts_of none = []
efforts_of (some e) = e.supported_reasoning_efforts

entry-efforts :
    (raw : BackendModelEntry) (e : Entry)
    → normalize_backend_entry raw ≡ some e
    → normalize_efforts raw ≡ e.supported_reasoning_efforts
unfolding normalize_backend_entry
entry-efforts raw e h =
    elim (Bool-cases
      (is_empty (trim_space (first_non_empty (raw.slug ∷ raw.id ∷ raw.name ∷ []))))) [
        | inl q ↦ absurd (cc (rw (q, normalize_backend_entry) at h))
        | inr q ↦ ap efforts_of (rw (q, normalize_backend_entry) at h)
      ]

normalize_backend_entry-HasDistinct :
    (raw : BackendModelEntry) (e : Entry) → normalize_backend_entry raw ≡ some e → HasDistinct e
normalize_backend_entry-HasDistinct raw e h =
    let d = normalize_efforts-IsDistinct raw in
    subst (λ es. IsDistinct (map effort_key es)) (entry-efforts raw e h) d

-- What the loop keeps: the order has no ID twice and an entry for each, and each entry stands under its
-- own ID and has distinct efforts.
pub record IsOrdered (m : Dict Entry) (order : List Str) : Type 0 where
  pub distinct : IsDistinct order
  pub known : (k : Str) → In k order → is_some (lookup k m) ≡ true
  pub filed : (k : Str) (e : Entry) → lookup k m ≡ some e → (e.id ≡ k) × HasDistinct e

append-IsDistinct :
    (k : Str) (ks : List Str) → (In k ks → ⊥) → IsDistinct ks → IsDistinct (ks ++ k ∷ [])
append-IsDistinct k [] n d = (λ i. i, tt)
append-IsDistinct k (j ∷ ks) n d = (
  λ i. elim (In-append j ks (k ∷ []) i) [
    | inl a ↦ d.0 a
    | inr b ↦ elim b [ inl e ↦ n (inl (sym e)) | inr z ↦ z ]
  ],
  append-IsDistinct k ks (λ i. n (inr i)) d.1,
)

inserted_filed :
    (m : Dict Entry) (e : Entry)
    → ((k : Str) (x : Entry) → lookup k m ≡ some x → (x.id ≡ k) × HasDistinct x)
    → HasDistinct e
    → (k : Str) (x : Entry) → lookup k (insert e.id e m) ≡ some x
    → (x.id ≡ k) × HasDistinct x
inserted_filed m e f d k x h = elim (Bool-cases (str_eq e.id k)) [
  | inl q ↦
      let w : e ≡ x = ground (arith, lookup-insert e.id k e m) in
      subst (λ y. (y.id ≡ k) × HasDistinct y) w (ground (arith, str_eq_iff e.id k), d)
  | inr q ↦ f k x (ground (arith, lookup-insert e.id k e m))
]

inserted_known :
    (m : Dict Entry) (e : Entry) (order : List Str)
    → ((k : Str) → In k order → is_some (lookup k m) ≡ true)
    → (k : Str) → In k (order ++ e.id ∷ [])
    → is_some (lookup k (insert e.id e m)) ≡ true
inserted_known m e order f k i = elim (In-append k order (e.id ∷ []) i) [
  | inl a ↦ ground (arith, lookup-insert e.id k e m, f k a)
  | inr b ↦ elim b [
    | inl q ↦ ground (arith, lookup-insert e.id k e m, str_eq_iff e.id k)
    | inr z ↦ absurd z
  ]
]

empty-IsOrdered : IsOrdered [] []
unfolding lookup
empty-IsOrdered = record { distinct = tt; known = λ k i. absurd i; filed = λ k e h. cc }

add_entry-IsOrdered :
    (raw : BackendModelEntry) (found : Option Entry) (m : Dict Entry) (order : List Str)
    → normalize_backend_entry raw ≡ found
    → IsOrdered m order
    → let s = add_entry found (m, order) in IsOrdered s.0 s.1
unfolding add_entry
add_entry-IsOrdered raw none m order h o = o
add_entry-IsOrdered raw (some e) m order h o =
    let f = inserted_filed m e o.filed (normalize_backend_entry-HasDistinct raw e h) in
    elim (Bool-cases (is_some (lookup e.id m))) [
      | inl q ↦ rw q (record {
        distinct = o.distinct;
        known = λ k i. ground (arith, lookup-insert e.id k e m, o.known k i);
        filed = f;
      })
      | inr q ↦ rw q (record {
        distinct = append-IsDistinct e.id order (λ i. cc (q, o.known e.id i)) o.distinct;
        known = inserted_known m e order o.known;
        filed = f;
      })
    ]

add_entries-IsOrdered :
    (raws : List BackendModelEntry) (s : Dict Entry × List Str)
    → IsOrdered s.0 s.1
    → let t = add_entries raws s in IsOrdered t.0 t.1
unfolding add_entries
add_entries-IsOrdered [] s o = o
add_entries-IsOrdered (raw ∷ raws) s o =
    add_entries-IsOrdered raws (add_entry (normalize_backend_entry raw) s)
      (add_entry-IsOrdered raw (normalize_backend_entry raw) s.0 s.1 refl o)

entries_of-some :
    (m : Dict Entry) (k : Str) (ks : List Str) (e : Entry)
    → lookup k m ≡ some e
    → entries_of m (k ∷ ks) ≡ e ∷ entries_of m ks
unfolding entries_of
entries_of-some m k ks e h = rw (h, entries_of) refl

entries_of-ids :
    (m : Dict Entry) (order : List Str)
    → ((k : Str) → In k order → is_some (lookup k m) ≡ true)
    → ((k : Str) (e : Entry) → lookup k m ≡ some e → (e.id ≡ k) × HasDistinct e)
    → (map (λ e. e.id) (entries_of m order) ≡ order) × All HasDistinct (entries_of m order)
unfolding entries_of
entries_of-ids m [] f g = (refl, tt)
entries_of-ids m (k ∷ ks) f g =
    let (a, b) = entries_of-ids m ks (λ j i. f j (inr i)) g in
    elim (Option-cases (lookup k m)) [
      | inl n ↦ absurd (cc (n, f k (inl refl)))
      | inr (e, q) ↦
          let (c, d) = g k e q in
          subst (λ l. (map (λ x. x.id) l ≡ k ∷ ks) × All HasDistinct l)
            (sym (entries_of-some m k ks e q)) ((λ i. c i ∷ a i), (d, b))
    ]

-- No two entries that `NormalizeBackendEntries` makes have one ID, and no entry has two
-- reasoning efforts with one name.
pub normalize_backend_entries-IsDistinct :
    (raws : List BackendModelEntry)
    → IsDistinct (map (λ e. e.id) (normalize_backend_entries raws))
      × All HasDistinct (normalize_backend_entries raws)
unfolding normalize_backend_entries
normalize_backend_entries-IsDistinct raws =
    let o = add_entries-IsOrdered raws ([], []) empty-IsOrdered in
    let s = add_entries raws ([], []) in
    let (a, b) = entries_of-ids s.0 s.1 o.known o.filed in (subst IsDistinct (sym a) o.distinct, b)
