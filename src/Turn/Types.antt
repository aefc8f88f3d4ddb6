-- ===== src/Turn/Types.antt =====
-- internal/turn/types.go and request.go: the input items of a request. Their slices are
-- compared by `reflect.DeepEqual`, so a nil slice is `none` and an empty one `some []`.
use codex_model_tester.Base.{List, Option, Str, [], none, some}

pub record ContentPart : Type 0 where
  pub type : Str
  pub text : Str
  pub image_url : Str
  pub detail : Str
  pub file_url : Str
  pub file_data : Str
  pub file_id : Str
  pub filename : Str

pub record ReasoningPart : Type 0 where
  pub type : Str
  pub text : Str

-- The elements of a slice that may be nil.
abbrev pub elements : {A : Type 0} → Option (List A) → List A
elements none = []
elements (some xs) = xs

pub record InputItem : Type 0 where
  pub role : Str
  pub type : Str
  pub phase : Str
  pub content : Option (List ContentPart)
  pub call_id : Str
  pub name : Str
  pub input : Str
  pub arguments : Str
  pub output_text : Str
  pub output_content : Option (List ContentPart)
  pub id : Str
  pub status : Str
  pub summary : Option (List ReasoningPart)
  pub encrypted_content : Str
