-- ===== src/Rows/Agreement.antt =====
-- The two readers of rows accept the same texts and read the same quads from them.
use mathlib.Core.Option
use mathlib.Core.Option.{some-injective}
use sqlite_sparql.Prelude.{
  String, List, [], ◌∷◌, ◌≡◌, refl, ap, sym, ◌∙◌, inl, inr, ◌||◌, Option, none, some, Result, ok,
  err, ◌>>=◌, HashSet, insert, contains, contains-insert, Option-cases, arith,
}
use sqlite_sparql.Rdf.{Quad}
use sqlite_sparql.Rdf.Equality.{quad_eq}
use sqlite_sparql.Oxigraph.{TermParsers, Json}
use sqlite_sparql.Rows.{
  parse_row, parse_each, parse_rows, parse_retracted_row, collect_retracted, parse_retracted_json,
}

-- What an accepted result holds, with the error forgotten.
abbrev pub accepted {ℓ} : {A : Type ℓ} → Result A → Option A
accepted (ok a) = some a
accepted (err _) = none

accepted-some {ℓ} : {A : Type ℓ} {a : A} (r : Result A) → accepted r ≡ some a → r ≡ ok a
accepted-some {a = a} (ok b) h = ap ok (some-injective b a h)
accepted-some (err e) h = cc

accepted-map {ℓ κ} :
    {A : Type ℓ} {B : Type κ} (f : A → B) {b : B} (r : Result A)
    → Option.map f (accepted r) ≡ some b
    → (a : A) × (r ≡ ok a)
accepted-map f (ok a) h = (a, refl)
accepted-map f (err e) h = cc

module _ (api : TermParsers) (json : Json) where
  open json use {Value}

  same_row :
      (row : Value)
      → accepted (parse_row api json row) ≡ accepted (parse_retracted_row api json row)
  unfolding parse_row parse_retracted_row
  same_row row = ground arith

  insert_each : HashSet Quad → List Quad → HashSet Quad
  insert_each out [] = out
  insert_each out (q ∷ qs) = insert_each (insert out q) qs

  contains-insert_each :
      (qs : List Quad) (out : HashSet Quad) (r : Quad)
      → contains (insert_each out qs) r ≡ (contains out r || contains qs r)
  unfolding insert_each
  contains-insert_each [] out r = ground arith
  contains-insert_each (q ∷ qs) out r =
      ground (arith, contains-insert_each qs (insert out q) r, contains-insert out q r)

  step_agrees :
      (out : HashSet Quad) (row row' : Result Quad) (rest : Result (List Quad))
      (next : Quad → Result (HashSet Quad))
      → accepted row ≡ accepted row'
      → ((q : Quad) → accepted (next q) ≡ Option.map (insert_each (insert out q)) (accepted rest))
      → accepted (row' >>= next)
        ≡ Option.map (insert_each out) (accepted (row >>= λ q. rest >>= λ qs. ok (q ∷ qs)))
  unfolding insert_each
  step_agrees out (ok q) (ok r) (ok qs) next same h =
      h r ∙ ap (λ t. some (insert_each (insert out t) qs)) (sym (some-injective q r same))
  step_agrees out (ok q) (ok r) (err e) next same h = h r
  step_agrees out (err e) (err e') rest next same h = refl
  step_agrees out (ok q) (err e) rest next same h = cc
  step_agrees out (err e) (ok r) rest next same h = cc

  same_rows :
      (rows : List Value) (out : HashSet Quad)
      → accepted (collect_retracted api json out rows)
        ≡ Option.map (insert_each out) (accepted (parse_each api json rows))
  unfolding parse_each collect_retracted
  same_rows [] out = unfold insert_each in refl
  same_rows (row ∷ rows) out =
      step_agrees out (parse_row api json row) (parse_retracted_row api json row)
        (parse_each api json rows) (λ q. collect_retracted api json (insert out q) rows)
        (same_row row) (λ q. same_rows rows (insert out q))

  accepted_agree :
      (text : String)
      → json.from_str_vec text ≡ Option.bind (json.from_str text) json.as_array
      → accepted (parse_retracted_json api json text)
        ≡ Option.map (insert_each []) (accepted (parse_rows api json text))
  unfolding parse_retracted_json parse_rows Option.bind
  accepted_agree text law = elim (Option-cases (json.from_str text)) [
    | inl bad ↦ rw law (rw bad refl)
    | inr (v, e) ↦ elim (Option-cases (json.as_array v)) [
      | inl bad ↦ rw law (rw e (rw bad refl))
      | inr (rows, f) ↦ rw law (rw e (rw f (same_rows rows [])))
    ]
  ]

  -- Where both readers decode a text to the same array, `rdf_insert_many` accepts it exactly when
  -- `rdf_dred_overdelete` does, and then the rows of the one are the members of the other's set.
  pub rows_agree :
      (text : String)
      → json.from_str_vec text ≡ Option.bind (json.from_str text) json.as_array
      → ((quads : List Quad)
          → parse_rows api json text ≡ ok quads
          → (set : HashSet Quad) × (parse_retracted_json api json text ≡ ok set)
            × ((q : Quad) → contains set q ≡ contains quads q))
        × ((set : HashSet Quad)
            → parse_retracted_json api json text ≡ ok set
            → (quads : List Quad) × (parse_rows api json text ≡ ok quads))
  rows_agree text law = (
    λ quads h. (
      insert_each [] quads,
      accepted-some _
          (accepted_agree text law ∙ ap (λ r. Option.map (insert_each []) (accepted r)) h),
      λ q. contains-insert_each quads [] q,
    ),
    λ set h.
        accepted-map (insert_each []) (parse_rows api json text)
          (sym (accepted_agree text law) ∙ ap accepted h),
  )
