-- ===== src/Accounts/Rotation/Sorting.antt =====
-- What `slices.SortFunc` gives, as internal/accounts/rotation.go uses it.
use mathlib.Core.List.{reverse-cons}
use codex_model_tester.Base.{
  ℕ, suc, ◌+◌, ◌≤◌, ◌≡◌, refl, subst, ◌⊎◌, inl, inr, true, false, List, [], ◌∷◌, ◌++◌, reverse,
  arith, length, length-reverse, In, All, In-append, In-append_left, In-append_right, All-In,
  All-of_In, All-append, Bool-cases,
}
use codex_model_tester.Accounts.Rotation.{Sign, is_below, insert_back, sort_back, sort_func}

module _ {A : Type 0} where
  In-reverse : (a : A) (xs : List A) → In a xs → In a (reverse xs)
  In-reverse a [] h = absurd h
  In-reverse a (x ∷ xs) (inl e) = rw reverse-cons (In-append_right a (reverse xs) (x ∷ []) (inl e))
  In-reverse a (x ∷ xs) (inr h) =
      rw reverse-cons (In-append_left a (reverse xs) (x ∷ []) (In-reverse a xs h))

  reverse-In : (a : A) (xs : List A) → In a (reverse xs) → In a xs
  reverse-In a [] h = h
  reverse-In a (x ∷ xs) h =
      ground (arith, In-append a (reverse xs) (x ∷ []) (rw reverse-cons at h), reverse-In a xs)

module _ {A : Type 0} (compare : A → A → Sign) where
  insert_back-In : (a x : A) (ys : List A) → In a (insert_back compare x ys) → (x ≡ a) ⊎ In a ys
  unfolding insert_back
  insert_back-In a x [] h = h
  insert_back-In a x (y ∷ ys) h = ground (arith, insert_back-In a x ys)

  In-insert_back : (a x : A) (ys : List A) → (x ≡ a) ⊎ In a ys → In a (insert_back compare x ys)
  unfolding insert_back
  In-insert_back a x [] h = h
  In-insert_back a x (y ∷ ys) h = ground (arith, In-insert_back a x ys)

  length-insert_back : (x : A) (ys : List A) → length (insert_back compare x ys) ≡ suc (length ys)
  unfolding insert_back
  length-insert_back x [] = refl
  length-insert_back x (y ∷ ys) = ground (arith, length-insert_back x ys)

  sort_back-In : (a : A) (done xs : List A) → In a (sort_back compare done xs) → In a done ⊎ In a xs
  unfolding sort_back
  sort_back-In a done [] h = inl h
  sort_back-In a done (x ∷ xs) h =
      ground (arith, sort_back-In a (insert_back compare x done) xs h, insert_back-In a x done)

  In-sort_back : (a : A) (done xs : List A) → In a done ⊎ In a xs → In a (sort_back compare done xs)
  unfolding sort_back
  In-sort_back a done [] h = ground arith
  In-sort_back a done (x ∷ xs) h =
      ground (arith, In-sort_back a (insert_back compare x done) xs, In-insert_back a x done)

  length-sort_back :
      (done xs : List A) → length (sort_back compare done xs) ≡ length done + length xs
  unfolding sort_back
  length-sort_back done [] = omega arith
  length-sort_back done (x ∷ xs) =
      omega (arith, length-sort_back (insert_back compare x done) xs, length-insert_back x done)

  pub sort_func-In : (a : A) (xs : List A) → In a (sort_func compare xs) → In a xs
  unfolding sort_func
  sort_func-In a xs h =
      ground (arith, sort_back-In a [] xs (reverse-In a (sort_back compare [] xs) h))

  pub In-sort_func : (a : A) (xs : List A) → In a xs → In a (sort_func compare xs)
  unfolding sort_func
  In-sort_func a xs h = In-reverse a (sort_back compare [] xs) (In-sort_back a [] xs (inr h))

  pub length-sort_func : (xs : List A) → length (sort_func compare xs) ≡ length xs
  unfolding sort_func
  length-sort_func xs =
      omega (arith, length-reverse (sort_back compare [] xs), length-sort_back [] xs)

-- A key that the comparison respects on the elements that satisfy `P`. No transitivity of the
-- comparison itself is needed.
module _ {A : Type 0} (compare : A → A → Sign) (P : A → Type 0) (key : A → ℕ)
    (rises : (x y : A) → P x → P y → is_below (compare x y) ≡ false → key y ≤ key x)
    (falls : (x y : A) → P x → P y → is_below (compare x y) ≡ true → key x ≤ key y) where
  abbrev Desc : List A → Type 0
  Desc [] = Unit
  Desc (x ∷ xs) = All (λ y. key y ≤ key x) xs × Desc xs

  abbrev Asc : List A → Type 0
  Asc [] = Unit
  Asc (x ∷ xs) = All (λ y. key x ≤ key y) xs × Asc xs

  All-le_trans : {k m : ℕ} (xs : List A) → k ≤ m → All (λ y. key y ≤ k) xs → All (λ y. key y ≤ m) xs
  All-le_trans [] h a = tt
  All-le_trans (x ∷ xs) h a = (omega arith, All-le_trans xs h a.1)

  All-insert_back :
      (Q : A → Type 0) (x : A) (ys : List A) → Q x → All Q ys → All Q (insert_back compare x ys)
  unfolding insert_back
  All-insert_back Q x [] q a = (q, tt)
  All-insert_back Q x (y ∷ ys) q a = elim (Bool-cases (is_below (compare x y))) [
    | inl e ↦ rw e (a.0, All-insert_back Q x ys q a.1)
    | inr e ↦ rw e (q, (a.0, a.1))
  ]

  insert_back-Desc :
      (x : A) (ys : List A) → P x → All P ys → Desc ys → Desc (insert_back compare x ys)
  unfolding insert_back
  insert_back-Desc x [] p a d = (tt, tt)
  insert_back-Desc x (y ∷ ys) p a d = elim (Bool-cases (is_below (compare x y))) [
    | inl e ↦ rw e (
      All-insert_back (λ z. key z ≤ key y) x ys (falls x y p a.0 e) d.0,
      insert_back-Desc x ys p a.1 d.1,
    )
    | inr e ↦ rw e ((rises x y p a.0 e, All-le_trans ys (rises x y p a.0 e) d.0), (d.0, d.1))
  ]

  sort_back-Desc :
      (done xs : List A) → All P done → All P xs → Desc done → Desc (sort_back compare done xs)
  unfolding sort_back
  sort_back-Desc done [] pd px d = d
  sort_back-Desc done (x ∷ xs) pd px d =
      sort_back-Desc (insert_back compare x done) xs (All-insert_back P x done px.0 pd) px.1
        (insert_back-Desc x done px.0 pd d)

  Asc-append : (xs : List A) (x : A) → Asc xs → All (λ y. key y ≤ key x) xs → Asc (xs ++ x ∷ [])
  Asc-append [] x s a = (tt, tt)
  Asc-append (y ∷ ys) x s a =
      (All-append (λ z. key y ≤ key z) ys (x ∷ []) s.0 (a.0, tt), Asc-append ys x s.1 a.1)

  All-reverse : (Q : A → Type 0) (xs : List A) → All Q xs → All Q (reverse xs)
  All-reverse Q xs a = All-of_In Q (reverse xs) (λ z i. All-In Q z xs a (reverse-In z xs i))

  Desc-reverse : (xs : List A) → Desc xs → Asc (reverse xs)
  Desc-reverse [] d = tt
  Desc-reverse (x ∷ xs) d =
      rw reverse-cons
        (Asc-append (reverse xs) x (Desc-reverse xs d.1) (All-reverse (λ y. key y ≤ key x) xs d.0))

  -- The sorted slice begins with an element of least key.
  pub sort_func-least :
      (xs : List A) {first : A} {rest : List A}
      → All P xs
      → sort_func compare xs ≡ first ∷ rest
      → All (λ y. key first ≤ key y) rest
  unfolding sort_func
  sort_func-least xs {first} {rest} px e =
      (subst Asc e (Desc-reverse (sort_back compare [] xs) (sort_back-Desc [] xs tt px tt))).0
