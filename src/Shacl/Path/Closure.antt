-- ===== src/Shacl/Path/Closure.antt =====
-- The loop of a closure in src/functions/rdf_shacl_core/path.rs: it ends, and it visits exactly the
-- nodes that steps lead to.
use sqlite_sparql.Prelude.{
  ℕ, zero, suc, ◌+◌, ◌<◌, length, length-le_of_Within, contains-append, IsDistinct, Within, List,
  [], ◌∷◌, ◌++◌, ◌≡◌, ◌↔◌, ◌∙◌, ◌||◌, refl, sym, ap, subst, inl, inr, arith, true, false,
  Bool-cases, Option, some, map, contains, ◌==◌, List-cases,
}
use sqlite_sparql.Rdf.{Subject, Term}
use sqlite_sparql.Rdf.Equality.{subject_eq, term_eq}
use sqlite_sparql.Rdf.Coercions.{subj_to_term}
use sqlite_sparql.Shacl.Path.{Rounds, absorb_all, round, closure}
use sqlite_sparql.Shacl.Path.Absorbed.{
  append_assoc, map-append, Absorbs, absorb_all-Absorbs, absorb_all-append,
}

module _ (step : Subject → Option (List Term)) (Leads : Subject → Term → Type 0)
    (total : (x : Subject)
      → (vs : List Term) × (step x ≡ some vs)
        × ((t : Term) → (contains vs t ≡ true) ↔ Leads x t)) where
  -- a round reads the values of its frontier
  reads :
      (fs : List Subject)
      → (vs : List Term) × ((st : Rounds) → round step fs st ≡ some (absorb_all st vs))
        × ((t : Term)
            → (contains vs t ≡ true) ↔ ((f : Subject) × (contains fs f ≡ true) × Leads f t))
  unfolding round absorb_all
  reads [] = ([], λ st. refl, λ t. (λ h. cc, λ w. cc (w.1)))
  reads (f ∷ fs) =
      let (us, eu, hu) = total f in
      let (vs, ev, hv) = reads fs in
      (
        us ++ vs,
        λ st. rw eu (ev (absorb_all st us) ∙ ap some (sym (absorb_all-append st us vs))),
        λ t. (
          λ m. elim (Bool-cases (contains us t)) [
            | inl now ↦ (f, ground (arith, subject_eq.beq_iff f f), (hu t).0 now)
            | inr later ↦
                let (g, mg, lg) = (hv t).0 (ground (arith, contains-append us vs t)) in
                (g, ground arith, lg)
          ],
          λ w. elim (Bool-cases (f == w.0)) [
            | inl same ↦
                let e = (subject_eq.beq_iff f w.0).0 same in
                let now = (hu t).1 (subst (λ x. Leads x t) (sym e) w.2) in
                ground (arith, contains-append us vs t, now)
            | inr other ↦
                let later = (hv t).1 (w.0, ground (arith, w.1), w.2) in
                ground (arith, contains-append us vs t, later)
          ],
        ),
      )

  -- one node leads to another in one step
  abbrev pub Hop : Subject → Subject → Type 0
  Hop x y = Leads x (subj_to_term y)

  -- what the loop comes to, from the variables that it starts with
  pub record Ends (st : Rounds) (out : List Term) : Type 1 where
    pub added : List Subject
    pub out_law : out ≡ st.out ++ map subj_to_term added
    pub closed :
        (y z : Subject)
        → (contains st.visited y || contains added y) ≡ true
        → Hop y z
        → (contains st.visited z || contains added z) ≡ true
    pub led_to :
        (P : Subject → Type 0)
        → ((y : Subject) → contains st.visited y ≡ true → P y)
        → ((y z : Subject) → P y → Hop y z → P z)
        → (y : Subject) → contains added y ≡ true
        → P y

  module _ (frontier : List Subject) (st st' : Rounds) (vs : List Term)
      (read : (t : Term)
        → (contains vs t ≡ true) ↔ ((f : Subject) × (contains frontier f ≡ true) × Leads f t))
      (a : Absorbs (record st { next = [] }) vs st') (front : Within frontier st.visited) where
    -- what a round adds is one step away from what was visited
    pushed-Hop :
        (y : Subject)
        → contains a.pushed y ≡ true
        → (f : Subject) × (contains st.visited f ≡ true) × Hop f y
    pushed-Hop y m =
        let (f, mf, hop) = (read (subj_to_term y)).0 (ground (arith, a.pushed_law y)) in
        (f, front f mf, hop)

    Within-round :
        (bound : List Subject)
        → ((y z : Subject) → contains bound y ≡ true → Hop y z → contains bound z ≡ true)
        → Within st.visited bound
        → Within st'.visited bound
    Within-round bound stays within y m = elim (Bool-cases (contains st.visited y)) [
      | inl old ↦ within y old
      | inr new ↦
          let (f, mf, hop) = pushed-Hop y (ground (arith, a.visited_law y)) in
          stays f y (within f mf) hop
    ]

    done-round :
        ((y z : Subject)
          → contains st.visited y ≡ true
          → contains frontier y ≡ false
          → Hop y z
          → contains st.visited z ≡ true)
        → (y z : Subject) → contains st'.visited y ≡ true
        → contains a.pushed y ≡ false
        → Hop y z
        → contains st'.visited z ≡ true
    done-round done y z m np hop =
        let old : contains st.visited y ≡ true = ground (arith, a.visited_law y) in
        elim (Bool-cases (contains frontier y)) [
          | inl now ↦
              let found = (read (subj_to_term z)).1 (y, now, hop) in
              ground (arith, a.visited_law z, a.pushed_law z, found)
          | inr before ↦ ground (arith, a.visited_law z, done y z old before hop)
        ]

    Ends-last :
        ((y z : Subject)
          → contains st'.visited y ≡ true
          → contains a.pushed y ≡ false
          → Hop y z
          → contains st'.visited z ≡ true)
        → a.pushed ≡ []
        → Ends st st'.out
    Ends-last done e = record {
      added = a.pushed;
      out_law = a.out_law;
      closed = λ y z m hop.
          ground
            (arith, a.visited_law z, done y z (ground (arith, a.visited_law y)) (rw e refl) hop);
      led_to = λ P start more y m. let (f, mf, hop) = pushed-Hop y m in more f y (start f mf) hop;
    }

    Ends-more : (out : List Term) → Ends st' out → Ends st out
    Ends-more out b = record {
      added = a.pushed ++ b.added;
      out_law =
          b.out_law
          ∙ ap (λ l. l ++ map subj_to_term b.added) a.out_law
          ∙ append_assoc st.out (map subj_to_term a.pushed) (map subj_to_term b.added)
          ∙ ap (λ l. st.out ++ l) (sym (map-append subj_to_term a.pushed b.added));
      closed = λ y z m hop. ground (
        arith,
        a.visited_law z,
        contains-append a.pushed b.added z,
        b.closed y z (ground (arith, a.visited_law y, contains-append a.pushed b.added y)) hop,
      );
      led_to = λ P start more.
          let started : (y : Subject) → contains st'.visited y ≡ true → P y = λ y m.
            elim (Bool-cases (contains st.visited y)) [
              | inl old ↦ start y old
              | inr new ↦
                  let (f, mf, hop) = pushed-Hop y (ground (arith, a.visited_law y)) in
                  more f y (start f mf) hop
            ] in
          λ y m. elim (Bool-cases (contains b.added y)) [
            | inl later ↦ b.led_to P started more y later
            | inr now ↦
                started y (ground (arith, a.visited_law y, contains-append a.pushed b.added y))
          ];
    }

  closure-last :
      (rounds : ℕ) (frontier : List Subject) (st st' : Rounds)
      → round step frontier (record st { next = [] }) ≡ some st'
      → st'.next ≡ []
      → closure step (suc rounds) frontier st ≡ some st'.out
  unfolding closure
  closure-last rounds frontier st st' er last = ground (arith, er, last)

  closure-more :
      (rounds : ℕ) (frontier : List Subject) (st st' : Rounds) (f : Subject) (fs : List Subject)
      → round step frontier (record st { next = [] }) ≡ some st'
      → st'.next ≡ f ∷ fs
      → closure step (suc rounds) frontier st ≡ closure step rounds (f ∷ fs) st'
  unfolding closure
  closure-more rounds frontier st st' f fs er more = ground (arith, er, more)

  -- The loop ends when it may run once more than the bound has nodes that are not visited yet.
  pub closure-Ends :
      (bound : List Subject)
      → ((y z : Subject) → contains bound y ≡ true → Hop y z → contains bound z ≡ true)
      → (rounds : ℕ) (frontier : List Subject) (st : Rounds) → IsDistinct st.visited
      → Within st.visited bound
      → Within frontier st.visited
      → ((y z : Subject)
          → contains st.visited y ≡ true
          → contains frontier y ≡ false
          → Hop y z
          → contains st.visited z ≡ true)
      → length bound < rounds + length st.visited
      → (out : List Term) × (closure step rounds frontier st ≡ some out) × Ends st out
  closure-Ends bound stays zero frontier st distinct within front done enough =
      ground (arith, length-le_of_Within st.visited bound distinct within)
  closure-Ends bound stays (suc rounds) frontier st distinct within front done enough =
      let (vs, ev, hv) = reads frontier in
      let st' = absorb_all (record st { next = [] }) vs in
      let a = absorb_all-Absorbs (record st { next = [] }) vs in
      let done' = done-round frontier st st' vs hv a front done in
      elim (List-cases st'.next) [
        | inl last ↦ (
          st'.out,
          closure-last rounds frontier st st' (ev _) last,
          Ends-last frontier st st' vs hv a front done' (sym a.next_law ∙ last),
        )
        | inr (f, fs, e) ↦
            let pushed : a.pushed ≡ f ∷ fs = sym a.next_law ∙ e in
            let (out, eo, b) =
              closure-Ends bound stays rounds (f ∷ fs) st' (a.distinct_law distinct)
                (Within-round frontier st st' vs hv a front bound stays within)
                (λ y m. ground (arith, a.visited_law y, ap (λ l. contains l y) pushed))
                (λ y z m n. done' y z m (ap (λ l. contains l y) pushed ∙ n))
                (omega (arith, a.length_law, ap length pushed)) in
            (
              out,
              closure-more rounds frontier st st' f fs (ev _) e ∙ eo,
              Ends-more frontier st st' vs hv a front out b,
            )
      ]
