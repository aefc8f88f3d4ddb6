-- ===== src/Turn/Equality.antt =====
-- `reflect.DeepEqual` on the items of internal/turn/request.go.
use native.Mathlib.Decide.{ℕ_discrete}
use codex_model_tester.Base.{Bool, Str, false, refl, true, ◌≡◌}
use codex_model_tester.Turn.Types.{ContentPart, ReasoningPart, InputItem}

Str-discrete : Discrete Str
Str-discrete = hlevel ℕ_discrete

ContentPart-discrete : Discrete ContentPart
ContentPart-discrete = hlevel Str-discrete

ReasoningPart-discrete : Discrete ReasoningPart
ReasoningPart-discrete = hlevel Str-discrete

unfoldable pub InputItem-discrete : Discrete InputItem
unfolding Str-discrete ContentPart-discrete ReasoningPart-discrete
InputItem-discrete = hlevel (Str-discrete, ContentPart-discrete, ReasoningPart-discrete)

abbrev holds : {a b : InputItem} → Dec (a ≡ b) → Bool
holds (yes p) = true
holds (no p) = false

unfoldable pub deep_equal : InputItem → InputItem → Bool
unfolding InputItem-discrete
deep_equal a b = holds (InputItem-discrete a b)

holds-true : {a b : InputItem} (d : Dec (a ≡ b)) → holds d ≡ true → a ≡ b
holds-true (yes p) h = p
holds-true (no p) h = cc

holds_refl : {a : InputItem} (d : Dec (a ≡ a)) → holds d ≡ true
holds_refl (yes p) = refl
holds_refl (no p) = absurd (p refl)

pub deep_equal_sound : (a b : InputItem) → deep_equal a b ≡ true → a ≡ b
unfolding deep_equal
deep_equal_sound a b h = holds-true (InputItem-discrete a b) h

pub deep_equal_refl : (a : InputItem) → deep_equal a a ≡ true
unfolding deep_equal
deep_equal_refl a = holds_refl (InputItem-discrete a a)
