-- ===== src/AccountManager/Usable.antt =====
-- The checks of EnsureReady, of internal/accountmanager/manager.go, and what they mean.
use codex_model_tester.Base.{
  Bool-cases, Option, arith, false, inl, inr, is_empty, none, refl, some, ℕ, ◌+◌, ◌<◌, ◌≡◌, ◌≤◌,
}
use codex_model_tester.AccountManager.{
  Failure, Reply, done, failed, validate_ready_record, is_fresh, Check, ready, stale, broken,
  checked, check_reply,
}
use codex_model_tester.Accounts.Types.{Time, Record, is_disabled}
use codex_model_tester.Accounts.Store.{Service}

-- An account that is not disabled and has an access token.
abbrev pub IsValid : Record → Type 0
IsValid r = (is_disabled r.status ≡ false) × (is_empty r.token.access_token ≡ false)

-- Such an account whose token lives longer than the skew.
abbrev pub IsUsable : ℕ → Time → Record → Type 0
IsUsable skew now r = IsValid r × (now + skew < r.token.expires_at)

-- What a check says of the record in it.
abbrev pub Means : ℕ → Time → Check → Type 0
Means skew now (ready r) = IsUsable skew now r
Means skew now (stale r) = IsValid r × (r.token.expires_at ≤ now + skew)
Means skew now (broken e) = Unit

validate_ready_record-IsValid : (r : Record) → validate_ready_record r ≡ none → IsValid r
unfolding validate_ready_record
validate_ready_record-IsValid r h = ground arith

checked-Means :
    (skew : ℕ) (now : Time) (r : Record) (e : Option Failure)
    → validate_ready_record r ≡ e
    → Means skew now (checked skew now r e)
unfolding checked
checked-Means skew now r (some e) h = tt
checked-Means skew now r none h =
    let v = validate_ready_record-IsValid r h in
    elim (Bool-cases (is_fresh skew now r)) [
      | inl f ↦ rw f (v, ground arith)
      | inr f ↦ rw f (v, ground arith)
    ]

pub check_reply-Means :
    (skew : ℕ) (now : Time) (o : Service × Reply Record) → Means skew now (check_reply skew now o).1
unfolding check_reply
check_reply-Means skew now (s, failed e) = tt
check_reply-Means skew now (s, done r) = checked-Means skew now r (validate_ready_record r) refl
