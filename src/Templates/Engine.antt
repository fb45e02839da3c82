-- ===== src/Templates/Engine.antt =====
-- An engine for templates that hold text and fields only; it shows that what is relied on of
-- `text/template` can be met.
use kubedns_shepherd.Base.{
  ℕ, zero, suc, ◌≤◌, true, false, List, [], ◌∷◌, ◌++◌, Option, none, some, Text, codes, Result, ok,
  err, lookup, All, length, ◌≡◌, ◌≢◌, refl, sym, ap, arith, ◌∙◌, append_assoc, ◌==◌, subst,
}
use kubedns_shepherd.Api.Keys.{match_key, is_space}
use kubedns_shepherd.Api.Keys.Placeholder.{
  Spaces, Placeholder, match_key_complete, match_key-none_of_ne,
}
use kubedns_shepherd.Api.Keys.Search.{length-Placeholder}
use kubedns_shepherd.Templates.{
  Params, TemplateEngine, Piece, literal, field, print_piece, print, is_blank, IsSimple, render,
  render_rest, put_front, Agrees, RendersFields,
}

abbrev prepend : Piece → Result Text (List Piece) → Result Text (List Piece)
prepend p (ok ps) = ok (p ∷ ps)
prepend p (err e) = err e

-- Each byte outside of an action is a literal; an action that is no field is refused.
unfoldable pub parse_from : ℕ → Text → Result Text (List Piece)
parse_from zero s = ok []
parse_from (suc fuel) [] = ok []
parse_from (suc fuel) (c ∷ s) = elim (match_key (c ∷ s)) [
  | some (key, rest) ↦ prepend (field [] key []) (parse_from fuel rest)
  | none ↦ elim (c == b'{') [
    | true ↦ err (codes "unexpected {")
    | false ↦ prepend (literal (c ∷ [])) (parse_from fuel s)
  ]
]

unfoldable pub parse_pieces : Text → Result Text (List Piece)
unfolding parse_from
parse_pieces s = parse_from (length s) s

abbrev filled : Option Text → Result Text Text
filled none = err (codes "map has no entry for key")
filled (some out) = ok out

abbrev execute_pieces : List Piece → Params → Result Text Text
execute_pieces ps params = filled (render params ps)

abbrev pub field_engine : TemplateEngine
field_engine = record { Template = List Piece; parse = parse_pieces; execute = execute_pieces }

-- `s` parses to pieces that render as `ps` does.
abbrev Parses : ℕ → Text → List Piece → Type 0
Parses fuel s ps =
    (t : List Piece) × (parse_from fuel s ≡ ok t)
    × ((params : Params) → render params t ≡ render params ps)

put_front-append :
    (c : ℕ) (text : Text) (o : Option Text)
    → put_front (c ∷ []) (put_front text o) ≡ put_front (c ∷ text) o
put_front-append c text none = refl
put_front-append c text (some out) = refl

put_front-nil : (o : Option Text) → put_front [] o ≡ o
put_front-nil none = refl
put_front-nil (some out) = refl

Parses-literal :
    (text : Text) (ps : List Piece) (fuel : ℕ)
    → All (λ c. c ≢ b'{') text
    → ((f : ℕ) → length (print ps) ≤ f → Parses f (print ps) ps)
    → length (text ++ print ps) ≤ fuel
    → Parses fuel (text ++ print ps) (literal text ∷ ps)
unfolding parse_from
Parses-literal [] ps fuel h k le =
    let (t, e, r) = k fuel le in (t, e, λ params. r params ∙ sym (put_front-nil (render params ps)))
Parses-literal (c ∷ text) ps zero h k le = absurd (omega arith)
Parses-literal (c ∷ text) ps (suc fuel) (n, h) k le =
    let (t, e, r) = Parses-literal text ps fuel h k (omega arith) in
    (
      literal (c ∷ []) ∷ t,
      rw (match_key-none_of_ne c (text ++ print ps) n, parse_from) (ground arith),
      λ params. ap (put_front (c ∷ [])) (r params) ∙ put_front-append c text (render params ps),
    )

blank_Spaces : (xs : Text) → All (λ c. is_blank c ≡ true) xs → Spaces xs
unfolding is_space
blank_Spaces [] h = tt
blank_Spaces (x ∷ xs) (p, h) = (ground arith, blank_Spaces xs h)

field-Placeholder :
    (before key after rest : Text)
    → IsSimple (field before key after)
    → Placeholder key (print_piece (field before key after) ++ rest) rest
field-Placeholder before [] after rest (b, i, a) = absurd i
field-Placeholder before (c ∷ key) after rest (b, i, a) = record {
  before = before;
  after = after;
  before_spaces = blank_Spaces before b;
  after_spaces = blank_Spaces after a;
  key_word = i.0;
  key_ne_nil = λ e. cc;
  shape = simp append_assoc;
}

Parses-field :
    (before key after : Text) (ps : List Piece) (fuel : ℕ)
    → IsSimple (field before key after)
    → ((f : ℕ) → length (print ps) ≤ f → Parses f (print ps) ps)
    → length (print_piece (field before key after) ++ print ps) ≤ fuel
    → Parses fuel (print_piece (field before key after) ++ print ps) (field before key after ∷ ps)
unfolding parse_from
Parses-field before key after ps zero s k le = absurd (omega arith)
Parses-field before key after ps (suc fuel) s k le =
    let p = field-Placeholder before key after (print ps) s in
    let (t, e, r) = k fuel (omega (arith, length-Placeholder p)) in
    (
      field [] key [] ∷ t,
      rw (match_key_complete p, parse_from) (rw e refl),
      λ params. ap (render_rest (lookup key params)) (r params),
    )

Parses-print :
    (ps : List Piece)
    → All IsSimple ps
    → (fuel : ℕ) → length (print ps) ≤ fuel
    → Parses fuel (print ps) ps
Parses-print [] s zero le = ([], unfold parse_from in refl, λ params. refl)
Parses-print [] s (suc fuel) le = ([], unfold parse_from in refl, λ params. refl)
Parses-print (literal text ∷ ps) (h, s) fuel le =
    Parses-literal text ps fuel h (Parses-print ps s) le
Parses-print (field before key after ∷ ps) (h, s) fuel le =
    Parses-field before key after ps fuel h (Parses-print ps s) le

Agrees-filled : (o : Option Text) → Agrees o (filled o)
Agrees-filled none = (codes "map has no entry for key", refl)
Agrees-filled (some out) = refl

pub field_engine-RendersFields : RendersFields field_engine
field_engine-RendersFields = record {
  renders = λ ps s.
      let (t, e, r) = Parses-print ps s (length (print ps)) (omega arith) in
      (
        t,
        unfold parse_pieces in e,
        λ params.
            subst (λ o. Agrees o (filled (render params t))) (r params)
              (Agrees-filled (render params t)),
      );
}
