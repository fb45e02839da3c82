-- ===== src/Pods/Searches.antt =====
-- The loop of `configureDNSForPod` over the searches: what it renders, and on which searches it fails.
use kubedns_shepherd.Base.{
  List, [], ◌∷◌, ◌++◌, Text, ok, err, Result-cases, ◌≡◌, sym, arith, inl, inr, ◌∙◌, append_assoc,
  append-nil,
}
use kubedns_shepherd.Templates.{Params, TemplateEngine}
use kubedns_shepherd.Pods.{render_search, render_searches}

module _ (engine : TemplateEngine) where
  open engine use {parse, execute}

  -- Each search is parsed and executed, and gives the text at the same place.
  pub data Rendered (params : Params) : List Text → List Text → Type 0 where
    nil : Rendered params [] []
    cons :
        {search output : Text} {searches outputs : List Text}
        → (t : engine.Template) × (parse search ≡ ok t) × (execute t params ≡ ok output)
        → Rendered params searches outputs
        → Rendered params (search ∷ searches) (output ∷ outputs)

  render_search-ok :
      (params : Params) (search : Text) {output : Text}
      → render_search engine params search ≡ ok output
      → (t : engine.Template) × (parse search ≡ ok t) × (execute t params ≡ ok output)
  unfolding render_search
  render_search-ok params search h = elim (Result-cases (parse search)) [
    | inr (e, q) ↦ absurd (ground (arith))
    | inl (t, q) ↦ elim (Result-cases (execute t params)) [
      | inr (e, r) ↦ absurd (ground arith)
      | inl (out, r) ↦ (t, q, ground arith)
    ]
  ]

  pub render_searches-ok :
      (params : Params) (acc searches : List Text) {result : List Text}
      → render_searches engine params acc searches ≡ ok result
      → (outputs : List Text) × (result ≡ acc ++ outputs) × Rendered params searches outputs
  unfolding render_searches
  render_searches-ok params acc [] h = ([], sym (append-nil acc ∙ ground arith), nil)
  render_searches-ok params acc (search ∷ rest) h =
      elim (Result-cases (render_search engine params search)) [
        | inr (e, q) ↦ absurd (ground arith)
        | inl (out, q) ↦
            let (outputs, same, rendered) =
              render_searches-ok params (acc ++ (out ∷ [])) rest (ground arith) in
            (
              out ∷ outputs,
              same ∙ append_assoc acc (out ∷ []) outputs,
              cons (render_search-ok params search q) rendered,
            )
      ]

  -- Some search does not parse, or its template does not execute.
  pub data Unrendered (params : Params) : List Text → Type 0 where
    parse_fails : {s e : Text} {rest : List Text} → parse s ≡ err e → Unrendered params (s ∷ rest)
    execute_fails :
        {s e : Text} {rest : List Text} {t : engine.Template}
        → parse s ≡ ok t
        → execute t params ≡ err e
        → Unrendered params (s ∷ rest)
    later : {s : Text} {rest : List Text} → Unrendered params rest → Unrendered params (s ∷ rest)

  pub render_searches-err :
      (params : Params) (acc searches : List Text) {e : Text}
      → render_searches engine params acc searches ≡ err e
      → Unrendered params searches
  unfolding render_searches render_search
  render_searches-err params acc [] h = absurd (ground arith)
  render_searches-err params acc (s ∷ rest) {e = why} h = elim (Result-cases (parse s)) [
    | inr (e, q) ↦ parse_fails q
    | inl (t, q) ↦ elim (Result-cases (execute t params)) [
      | inr (e, r) ↦ execute_fails q r
      | inl (out, r) ↦
          later (render_searches-err params (acc ++ (out ∷ [])) rest {e = why} (ground arith))
    ]
  ]
