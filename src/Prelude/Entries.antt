-- ===== src/Prelude/Entries.antt =====
-- Iterating over a `HashMap`: a loop over its entries meets each key once.
use mathlib.Core.Path.{◌≡◌, refl, sym, ap, subst, ◌∙◌}
use mathlib.Core.Logic.{inl, inr}
use mathlib.Core.Bool.{true}
use mathlib.Core.List.{List, [], ◌∷◌}
use mathlib.Core.Option.{none, some}
use native.Mathlib.Omega.{arith}
use sqlite_sparql.Prelude.Tests.{Eq, ◌==◌, Bool-cases, Option-cases, pair_eq}
use sqlite_sparql.Prelude.Sets.{HashSet, contains, insert, contains-append}
use sqlite_sparql.Prelude.Maps.{HashMap, get, put, get-put, or_default}
use sqlite_sparql.Prelude.Loops.{each, group, contains-group}

module _ {K V : Type 0} ⦃e : Eq K⦄ where
  abbrev pub HasDistinctKeys : HashMap K V → Type 0
  HasDistinctKeys [] = Unit
  HasDistinctKeys ((k, v) ∷ m) = (get m k ≡ none) × HasDistinctKeys m

  pub put-HasDistinctKeys :
      (m : HashMap K V) (k : K) (v : V) → HasDistinctKeys m → HasDistinctKeys (put m k v)
  unfolding put get
  put-HasDistinctKeys [] k v d = (refl, tt)
  put-HasDistinctKeys ((j, w) ∷ m) k v d = elim (Bool-cases (j == k)) [
    | inl same ↦ rw same (subst (λ l. get m l ≡ none) ((e.beq_iff j k).0 same) d.0, d.1)
    | inr other ↦ rw other (
      ground (arith, get-put m k j v, e.beq_iff j k, e.beq_iff k j, d.0),
      put-HasDistinctKeys m k v d.1,
    )
  ]

module _ {K V B : Type 0} ⦃e : Eq K⦄ ⦃d : Eq B⦄ (body : K × V → List B) where
  -- an entry whose body has the member
  Emits : HashMap K V → B → Type 0
  Emits m b = (k : K) × (v : V) × (get m k ≡ some v) × (contains (body (k, v)) b ≡ true)

  Emits-head :
      (j : K) (w : V) (m : HashMap K V) (b : B)
      → contains (body (j, w)) b ≡ true
      → Emits ((j, w) ∷ m) b
  unfolding Emits get
  Emits-head j w m b h = (j, w, ground (arith, e.beq_iff j j), h)

  get-tail :
      (j k : K) (w v : V) (m : HashMap K V)
      → get m j ≡ none
      → get m k ≡ some v
      → get ((j, w) ∷ m) k ≡ some v
  unfolding get
  get-tail j k w v m absent g = elim (Bool-cases (j == k)) [
    | inl same ↦ cc (subst (λ l. get m l ≡ none) ((e.beq_iff j k).0 same) absent, g)
    | inr other ↦ rw other g
  ]

  Emits-tail :
      (j : K) (w : V) (m : HashMap K V) (b : B) → get m j ≡ none → Emits m b → Emits ((j, w) ∷ m) b
  unfolding Emits
  Emits-tail j w m b absent (k, v, g, h) = (k, v, get-tail j k w v m absent g, h)

  Emits-each :
      (m : HashMap K V) (b : B) → HasDistinctKeys m → contains (each m body) b ≡ true → Emits m b
  Emits-each [] b h mb = cc
  Emits-each (kv ∷ m) b h mb = elim (Bool-cases (contains (body kv) b)) [
    | inl now ↦ Emits-head kv.0 kv.1 m b now
    | inr later ↦
        Emits-tail kv.0 kv.1 m b h.0
          (Emits-each m b h.1 (ground (arith, contains-append (body kv) (each m body) b)))
  ]

  pub each_entries_elim :
      (m : HashMap K V) (b : B)
      → HasDistinctKeys m
      → contains (each m body) b ≡ true
      → (k : K) × (v : V) × (get m k ≡ some v) × (contains (body (k, v)) b ≡ true)
  unfolding Emits
  each_entries_elim m b h mb = Emits-each m b h mb

  pub each_entries_intro :
      (m : HashMap K V) (b : B) (k : K) (v : V)
      → get m k ≡ some v
      → contains (body (k, v)) b ≡ true
      → contains (each m body) b ≡ true
  unfolding get
  each_entries_intro [] b k v g mk = cc
  each_entries_intro ((j, w) ∷ m) b k v g mk =
      let split = contains-append (body (j, w)) (each m body) b in
      elim (Bool-cases (j == k)) [
        | inl same ↦
            let ev : w ≡ v = ground (arith, same) in
            let now : contains (body (j, w)) b ≡ true =
              subst (λ x. contains (body (j, x)) b ≡ true) (sym ev)
                (subst (λ l. contains (body (l, v)) b ≡ true) (sym ((e.beq_iff j k).0 same)) mk) in
            ground (arith, split, now)
        | inr other ↦ ground (arith, split, each_entries_intro m b k v (rw other at g) mk)
      ]

module _ {K V : Type 0} ⦃e : Eq K⦄ ⦃d : Eq V⦄ where
  pub group-HasDistinctKeys : (kvs : List (K × V)) → HasDistinctKeys (group kvs)
  unfolding group
  group-HasDistinctKeys [] = tt
  group-HasDistinctKeys ((k, v) ∷ kvs) =
      put-HasDistinctKeys (group kvs) k (insert (or_default (get (group kvs) k) []) v)
        (group-HasDistinctKeys kvs)

  -- a member of the entry of a key
  pub group-entry :
      (kvs : List (K × V)) (k : K) (vs : HashSet V)
      → get (group kvs) k ≡ some vs
      → (v : V) → contains vs v ≡ contains kvs (k, v)
  group-entry kvs k vs g v = ap (λ o. contains (or_default o []) v) (sym g) ∙ contains-group kvs k v

  -- a key with a value has an entry
  pub group-has_entry :
      (kvs : List (K × V)) (k : K) (v : V)
      → contains kvs (k, v) ≡ true
      → (vs : HashSet V) × (get (group kvs) k ≡ some vs)
  group-has_entry kvs k v m = elim (Option-cases (get (group kvs) k)) [
    | inr found ↦ found
    | inl nothing ↦
        let empty =
          ap (λ o. contains (or_default o []) v) (sym nothing) ∙ contains-group kvs k v ∙ m in
        cc empty
  ]
