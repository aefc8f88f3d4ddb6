-- ===== src/Accounts/Store/Keys.antt =====
-- The map of records of internal/accounts/service.go and its keys.
use codex_model_tester.Base.{
  ◌≡◌, refl, ◌∙◌, none, some, [], ◌∷◌, arith, Dict, Str, lookup, insert, erase, str_eq_iff,
  lookup-insert, lookup-erase,
}
use codex_model_tester.Accounts.Types.{Time, Record}
use codex_model_tester.Accounts.Store.{refresh_record, refresh_records}
use codex_model_tester.Accounts.Store.Refresh.{lookup-refresh_records}

abbrev pub IsKeyed : Dict Record → Type 0
IsKeyed [] = Unit
IsKeyed ((k, r) ∷ m) = (r.id ≡ k) × (lookup k m ≡ none) × IsKeyed m

pub insert-IsKeyed :
    (k : Str) (r : Record) (m : Dict Record) → r.id ≡ k → IsKeyed m → IsKeyed (insert k r m)
unfolding insert lookup
insert-IsKeyed k r [] e h = (e, refl, tt)
insert-IsKeyed k r ((j, w) ∷ m) e h =
    ground
      (arith, str_eq_iff j k, str_eq_iff k j, insert-IsKeyed k r m e h.2, lookup-insert k j r m)

pub erase-IsKeyed : (k : Str) (m : Dict Record) → IsKeyed m → IsKeyed (erase k m)
unfolding erase
erase-IsKeyed k [] h = tt
erase-IsKeyed k ((j, w) ∷ m) h = ground (arith, erase-IsKeyed k m h.2, lookup-erase k j m)

pub refresh_record-id : (now : Time) (r : Record) → (refresh_record now r).0.id ≡ r.id
unfolding refresh_record
refresh_record-id now r = ground arith

pub refresh_records-IsKeyed :
    (now : Time) (m : Dict Record) → IsKeyed m → IsKeyed (refresh_records now m).0
unfolding refresh_records
refresh_records-IsKeyed now [] h = tt
refresh_records-IsKeyed now ((k, r) ∷ m) h = (
  refresh_record-id now r ∙ h.0,
  rw (lookup-refresh_records now k m, h.1) refl,
  refresh_records-IsKeyed now m h.2,
)

pub lookup-id :
    (k : Str) (m : Dict Record) (r : Record) → IsKeyed m → lookup k m ≡ some r → r.id ≡ k
unfolding lookup
lookup-id k [] r h e = cc
lookup-id k ((j, w) ∷ m) r h e = ground (arith, str_eq_iff j k, lookup-id k m r h.2)
