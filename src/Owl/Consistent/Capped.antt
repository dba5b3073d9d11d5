-- ===== src/Owl/Consistent/Capped.antt =====
-- The cap on the violations that src/functions/rdf_owl_rl_consistent.rs reports.
use sqlite_sparql.Prelude.{
  ℕ, suc, ◌+◌, ◌<◌, ◌≤◌, List, [], ◌∷◌, ◌++◌, ◌≡◌, ◌∙◌, refl, sym, ap, subst, inl, inr, arith,
  Bool-cases, some, ok, err, length, leb, sort, insert_sorted,
}
use sqlite_sparql.Prelude.Fuel.{Fueled-cases}
use sqlite_sparql.Rdf.{GraphName}
use sqlite_sparql.Owl.Inconsistency.{ViolationRecord, compare_violations, violation_eq}
use sqlite_sparql.Owl.Consistent.{InconsistencyRule, run_rules, cap_exceeded}

length-insert_sorted :
    (v : ViolationRecord) (vs : List ViolationRecord)
    → length (insert_sorted compare_violations v vs) ≡ suc (length vs)
unfolding insert_sorted
length-insert_sorted v [] = refl
length-insert_sorted v (w ∷ vs) = ground (arith, length-insert_sorted v vs)

length-sort : (vs : List ViolationRecord) → length (sort compare_violations vs) ≡ length vs
unfolding sort
length-sort [] = refl
length-sort (v ∷ vs) = length-insert_sorted v (sort compare_violations vs) ∙ ap suc (length-sort vs)

length-append : (xs ys : List ViolationRecord) → length (xs ++ ys) ≡ length xs + length ys
length-append [] ys = omega arith
length-append (x ∷ xs) ys = omega (arith, length-append xs ys)

append_assoc : (xs ys zs : List ViolationRecord) → ((xs ++ ys) ++ zs) ≡ (xs ++ (ys ++ zs))
append_assoc [] ys zs = refl
append_assoc (x ∷ xs) ys zs = ap (λ l. x ∷ l) (append_assoc xs ys zs)

append-nil : (xs : List ViolationRecord) → (xs ++ []) ≡ xs
append-nil [] = refl
append-nil (x ∷ xs) = ap (λ l. x ∷ l) (append-nil xs)

module _ (a i : GraphName) where
  -- Every rule of the table returns, and these are the violations that they find, rule by rule.
  abbrev pub Reports : List InconsistencyRule → List ViolationRecord → Type 0
  Reports [] out = out ≡ []
  Reports (r ∷ rules) out =
      (found : List ViolationRecord) × (rest : List ViolationRecord) × (r.detect a i
        ≡ some (ok found))
      × Reports rules rest
      × (out ≡ sort compare_violations found ++ rest)

  module _ (max_violations : ℕ) where
    -- a rule that is run with room below the cap, and that stays within it
    run_rules-step :
        (r : InconsistencyRule) (rules : List InconsistencyRule) (all found : List ViolationRecord)
        → length all < max_violations
        → r.detect a i ≡ some (ok found)
        → length all + length found ≤ max_violations
        → run_rules max_violations a i (r ∷ rules) all
          ≡ run_rules max_violations a i rules (all ++ sort compare_violations found)
    unfolding run_rules
    run_rules-step r rules all found room e fits = ground (arith, e)

    -- what a call that returns has done for its first rule
    run_rules-returned :
        (r : InconsistencyRule) (rules : List InconsistencyRule) (all out : List ViolationRecord)
        → run_rules max_violations a i (r ∷ rules) all ≡ some (ok out)
        → (found : List ViolationRecord) × (r.detect a i ≡ some (ok found))
          × (length all + length found ≤ max_violations)
          × (run_rules max_violations a i rules (all ++ sort compare_violations found)
              ≡ some (ok out))
    unfolding run_rules
    run_rules-returned r rules all out h = elim (Fueled-cases (r.detect a i)) [
      | inl (found, e) ↦ (found, e, ground (arith, e), ground (arith, e))
      | inr (inl e) ↦ ground (arith, e)
      | inr (inr (x, e)) ↦ ground (arith, e)
    ]

    length-all :
        (all found : List ViolationRecord)
        → length (all ++ sort compare_violations found) ≡ length all + length found
    length-all all found =
        length-append all (sort compare_violations found)
        ∙ ap (λ n. length all + n) (length-sort found)

    run_rules-Reports :
        (rules : List InconsistencyRule) (all out : List ViolationRecord)
        → length all ≤ max_violations
        → run_rules max_violations a i rules all ≡ some (ok out)
        → (more : List ViolationRecord) × Reports rules more
          × (out ≡ all ++ more)
          × (length out ≤ max_violations)
    unfolding run_rules
    run_rules-Reports [] all out h e =
        let same : out ≡ all = cc e in ([], refl, same ∙ sym (append-nil all), rw same h)
    run_rules-Reports (r ∷ rules) all out h e =
        let (found, ef, fits, er) = run_rules-returned r rules all out e in
        let (rest, reports, eo, cap) =
          run_rules-Reports rules (all ++ sort compare_violations found) out
            (omega (arith, length-all all found)) er in
        (
          sort compare_violations found ++ rest,
          (found, rest, ef, reports, refl),
          eo ∙ append_assoc all (sort compare_violations found) rest,
          cap,
        )

    Reports-run_rules :
        (rules : List InconsistencyRule) (all more : List ViolationRecord)
        → Reports rules more
        → length all + length more < max_violations
        → run_rules max_violations a i rules all ≡ some (ok (all ++ more))
    unfolding run_rules
    Reports-run_rules [] all more e h =
        ap (λ l. some (ok l)) (sym (append-nil all) ∙ ap (λ l. all ++ l) (sym e))
    Reports-run_rules (r ∷ rules) all more (found, rest, ef, reports, em) h =
        let size = ap length em ∙ length-append (sort compare_violations found) rest in
        run_rules-step r rules all found (omega arith) ef (omega (arith, size, length-sort found))
        ∙ Reports-run_rules rules (all ++ sort compare_violations found) rest reports
            (omega (arith, size, length-sort found, length-all all found))
        ∙ ap (λ l. some (ok l))
            (append_assoc all (sort compare_violations found) rest ∙ ap (λ l. all ++ l) (sym em))

    -- What run_rules returns for a table is what its rules find, every rule of it, and no more records
    -- than the cap.
    pub run_rules_complete :
        (rules : List InconsistencyRule) (out : List ViolationRecord)
        → run_rules max_violations a i rules [] ≡ some (ok out)
        → Reports rules out × (length out ≤ max_violations)
    run_rules_complete rules out e =
        let (more, reports, eo, cap) = run_rules-Reports rules [] out (omega arith) e in
        (subst (Reports rules) (sym eo) reports, cap)

    -- When every rule returns and together they find fewer records than the cap, run_rules returns these
    -- records.
    pub run_rules-returns :
        (rules : List InconsistencyRule) (out : List ViolationRecord)
        → Reports rules out
        → length out < max_violations
        → run_rules max_violations a i rules [] ≡ some (ok out)
    run_rules-returns rules out reports h = Reports-run_rules rules [] out reports (omega arith)

    at_cap-prefix :
        (rules : List InconsistencyRule) (r : InconsistencyRule) (later : List InconsistencyRule)
        (all more : List ViolationRecord)
        → Reports rules more
        → length all + length more ≡ max_violations
        → run_rules max_violations a i (rules ++ r ∷ later) all ≡ some (err cap_exceeded)
    unfolding run_rules
    at_cap-prefix [] r later all more e h = ground (arith, ap length e)
    at_cap-prefix (q ∷ rules) r later all more (found, rest, ef, reports, em) h =
        let size = ap length em ∙ length-append (sort compare_violations found) rest in
        elim (Bool-cases (leb max_violations (length all))) [
          | inl full ↦ ground (arith, full)
          | inr room ↦
              run_rules-step q (rules ++ r ∷ later) all found (ground arith) ef
                (omega (arith, size, length-sort found))
              ∙ at_cap-prefix rules r later (all ++ sort compare_violations found) rest reports
                  (omega (arith, size, length-sort found, length-all all found))
        ]

    -- When the rules before some rule of the table find exactly as many records as the cap allows,
    -- run_rules reports that the cap is exceeded, whatever that rule and those after it find.
    pub run_rules-at_cap :
        (rules : List InconsistencyRule) (r : InconsistencyRule) (later : List InconsistencyRule)
        (out : List ViolationRecord)
        → Reports rules out
        → length out ≡ max_violations
        → run_rules max_violations a i (rules ++ r ∷ later) [] ≡ some (err cap_exceeded)
    run_rules-at_cap rules r later out reports h =
        at_cap-prefix rules r later [] out reports (omega arith)
