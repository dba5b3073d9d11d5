-- ===== src/Owl/PropertyLists/Pushed.antt =====
-- What a map that a loop pushes into has at a key.
use sqlite_sparql.Prelude.{
  List, [], ◌∷◌, ◌++◌, ◌≡◌, Eq, ◌||◌, HashMap, get, put, get-put, contains, contains-append, arith,
  or_default, pair_eq,
}
use sqlite_sparql.Owl.Restrictions.{push_values}

module _ {K V : Type 0} ⦃e : Eq K⦄ ⦃d : Eq V⦄ where
  pub contains-push_values :
      (pairs : List (K × V)) (m : HashMap K (List V)) (k : K) (v : V)
      → contains (or_default (get (push_values m pairs) k) []) v
        ≡ (contains (or_default (get m k) []) v || contains pairs (k, v))
  unfolding push_values
  contains-push_values [] m k v = ground arith
  contains-push_values ((j, w) ∷ pairs) m k v =
      let old = or_default (get m j) [] in
      ground (
        arith,
        contains-push_values pairs (put m j (old ++ w ∷ [])) k v,
        get-put m j k (old ++ w ∷ []),
        contains-append old (w ∷ []) v,
        e.beq_iff j k,
      )
