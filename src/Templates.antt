-- ===== src/Templates.antt =====
-- `text/template` as the pod webhook uses it: `template.New("").Option("missingkey=error")`, then
-- `Parse`, then `Execute` on a map of strings. The engine is a parameter; what is relied on is its
-- documented behaviour on templates that hold text and fields only.
pub mod Engine
use kubedns_shepherd.Base.{
  ℕ, Bool, true, ◌||◌, List, [], ◌∷◌, ◌++◌, Option, none, some, Text, codes, Result, ok, err,
  lookup, All, ◌≡◌, ◌≢◌, ◌==◌, ◌≤◌,
}
use kubedns_shepherd.Api.Keys.Placeholder.{Word}

abbrev pub Params : Type 0
Params = List (Text × Text)

pub record TemplateEngine : Type 1 where
  pub Template : Type 0
  pub parse : Text → Result Text Template
  pub execute : Template → Params → Result Text Text

-- A template is a row of texts and of actions `{{ .key }}`, with spaces on both sides of the field.
pub data Piece : Type 0 where
  literal : Text → Piece
  field : (before key after : Text) → Piece

abbrev pub print_piece : Piece → Text
print_piece (literal text) = text
print_piece (field before key after) =
    b'{' ∷ b'{' ∷ (before ++ (b'.' ∷ (key ++ (after ++ (b'}' ∷ b'}' ∷ [])))))

abbrev pub print : List Piece → Text
print [] = []
print (p ∷ ps) = print_piece p ++ print ps

-- The spaces that separate the tokens of an action.
abbrev pub is_blank : ℕ → Bool
is_blank c = c == b' ' || c == b'\t' || c == b'\r' || c == b'\n'

-- A field's name is an identifier: it does not begin with a digit.
abbrev pub IsIdentifier : Text → Type 0
IsIdentifier [] = ⊥
IsIdentifier (c ∷ key) = Word (c ∷ key) × (¬ ((b'0' ≤ c) × (c ≤ b'9')))

abbrev pub IsSimple : Piece → Type 0
IsSimple (literal text) = All (λ c. c ≢ b'{') text
IsSimple (field before key after) =
    All (λ c. is_blank c ≡ true) before × IsIdentifier key × All (λ c. is_blank c ≡ true) after

-- The text with each field replaced by its value; `none` if a key is missing.
abbrev pub put_front : Text → Option Text → Option Text
put_front text none = none
put_front text (some out) = some (text ++ out)

abbrev pub render_piece : Params → Piece → Option Text
render_piece params (literal text) = some text
render_piece params (field before key after) = lookup key params

abbrev pub render_rest : Option Text → Option Text → Option Text
render_rest none rest = none
render_rest (some text) rest = put_front text rest

abbrev pub render : Params → List Piece → Option Text
render params [] = some []
render params (p ∷ ps) = render_rest (render_piece params p) (render params ps)

abbrev pub Agrees : Option Text → Result Text Text → Type 0
Agrees none result = (e : Text) × (result ≡ err e)
Agrees (some out) result = result ≡ ok out

-- What the documentation of `text/template` promises for such templates: they parse, a field is
-- replaced by the map's value, and with `missingkey=error` a missing key stops with an error.
pub record RendersFields (engine : TemplateEngine) : Type 0 where
  pub renders :
      (pieces : List Piece)
      → All IsSimple pieces
      → (t : engine.Template) × (engine.parse (print pieces) ≡ ok t)
        × ((params : Params) → Agrees (render params pieces) (engine.execute t params))
