-- ===== src/Prelude/Loops.antt =====
-- Loops that push into a vector, and the hash join: `entry(k).or_default().insert(v)` over pairs,
-- followed by look-ups.
use mathlib.Core.Path.{◌≡◌, refl, subst, sym}
use mathlib.Core.Logic.{◌↔◌, inl, inr}
use mathlib.Core.Bool.{true}
use mathlib.Core.List.{List, [], ◌∷◌, ◌++◌}
use mathlib.Core.Option.{Option, none, some}
use native.Mathlib.Omega.{arith}
use sqlite_sparql.Prelude.Tests.{Eq, ◌==◌, Bool-cases, pair_eq}
use sqlite_sparql.Prelude.Sets.{HashSet, contains, insert, contains-insert, contains-append}
use sqlite_sparql.Prelude.Errors.{Result, ok, ◌>>=◌}
use sqlite_sparql.Prelude.Maps.{HashMap, get, put, get-put, or_default}

-- `for x in xs { out.extend(body(x)) }`
abbrev pub each {ℓ κ} : {A : Type ℓ} {B : Type κ} → List A → (A → List B) → List B
each [] body = []
each (x ∷ xs) body = body x ++ each xs body

module _ {A B : Type 0} ⦃e : Eq A⦄ ⦃d : Eq B⦄ (body : A → List B) where
  pub each_elim :
      (xs : List A) (b : B)
      → contains (each xs body) b ≡ true
      → (a : A) × (contains xs a ≡ true) × (contains (body a) b ≡ true)
  each_elim [] b h = cc
  each_elim (x ∷ xs) b h = elim (Bool-cases (contains (body x) b)) [
    | inl now ↦ (x, ground (arith, e.beq_iff x x), now)
    | inr later ↦
        let (a, m, p) =
          each_elim xs b (ground (arith, contains-append (body x) (each xs body) b)) in
        (a, ground arith, p)
  ]

  pub each_intro :
      (xs : List A) (a : A) (b : B)
      → contains xs a ≡ true
      → contains (body a) b ≡ true
      → contains (each xs body) b ≡ true
  each_intro [] a b m h = cc
  each_intro (x ∷ xs) a b m h =
      let glue = contains-append (body x) (each xs body) b in
      elim (Bool-cases (x == a)) [
        | inl same ↦
            let now : contains (body x) b ≡ true =
              subst (λ c. contains (body c) b ≡ true) (sym ((e.beq_iff x a).0 same)) h in
            ground (arith, glue, now)
        | inr other ↦ ground (arith, glue, each_intro xs a b (ground arith) h)
      ]

module _ {A B : Type 0} ⦃e : Eq A⦄ ⦃d : Eq B⦄ where
  -- a loop whose body emits `b` for the member `g b` only
  pub each-inverse :
      (body : A → List B) (g : B → A)
      → ((a : A) (b : B) → (contains (body a) b ≡ true) ↔ (a ≡ g b))
      → (xs : List A) (b : B) → (contains (each xs body) b ≡ true) ↔ (contains xs (g b) ≡ true)
  each-inverse body g h xs b = (
    λ m.
        let (a, ma, mb) = each_elim body xs b m in
        subst (λ x. contains xs x ≡ true) ((h a b).0 mb) ma,
    λ m. each_intro body xs (g b) b m ((h (g b) b).1 refl),
  )

module _ {K V : Type 0} ⦃e : Eq K⦄ ⦃d : Eq V⦄ where
  -- the map from each key to the set of its values
  unfoldable pub group : List (K × V) → HashMap K (HashSet V)
  group [] = []
  group ((k, v) ∷ kvs) = let rest = group kvs in put rest k (insert (or_default (get rest k) []) v)

  -- the values of a key that may be absent
  unfoldable pub joined : HashMap K (HashSet V) → Option K → List V
  joined m none = []
  joined m (some k) = or_default (get m k) []

  pub contains-group :
      (kvs : List (K × V)) (k : K) (v : V)
      → contains (or_default (get (group kvs) k) []) v ≡ contains kvs (k, v)
  unfolding group get
  contains-group [] k v = refl
  contains-group ((j, w) ∷ kvs) k v =
      let rest = group kvs in
      let old = or_default (get rest j) [] in
      ground (
        arith,
        contains-group kvs k v,
        contains-group kvs j v,
        get-put rest j k (insert old w),
        contains-insert old w v,
        e.beq_iff j k,
      )

  -- A look-up yields exactly the values that stand beside its key.
  pub joined_iff :
      (kvs : List (K × V)) (o : Option K) (v : V)
      → (contains (joined (group kvs) o) v ≡ true)
        ↔ ((k : K) × (o ≡ some k) × (contains kvs (k, v) ≡ true))
  unfolding joined
  joined_iff kvs none v = (λ h. cc, λ h. cc (h.1))
  joined_iff kvs (some k) v = (
    λ h. (k, refl, ground (arith, contains-group kvs k v)),
    λ h. ground (arith, contains-group kvs k v, h.1, h.2),
  )

-- `for x in xs { out.extend(body(x)?) }`
unfoldable pub each_ok {ℓ κ} :
    {A : Type ℓ} {B : Type κ} → List A → (A → Result (List B)) → Result (List B)
each_ok [] body = ok []
each_ok (x ∷ xs) body = do out ← body x; rest ← each_ok xs body; ok (out ++ rest)

-- The result is a list, no error, and its members are exactly those with the property.
abbrev pub Derives {ℓ} : {B : Type 0} ⦃d : Eq B⦄ → Result (List B) → (B → Type ℓ) → Type ℓ
Derives {B = B} r P = (out : List B) × (r ≡ ok out) × ((b : B) → (contains out b ≡ true) ↔ P b)

module _ {A B : Type 0} ⦃e : Eq A⦄ ⦃d : Eq B⦄ where
  pub Derives-each {ℓ} :
      (body : A → List B) (P : A → B → Type ℓ) (xs : List A)
      → ((a : A) (b : B) → (contains (body a) b ≡ true) ↔ P a b)
      → Derives (ok (each xs body)) (λ b. (a : A) × (contains xs a ≡ true) × P a b)
  Derives-each body P xs h = (
    each xs body,
    refl,
    λ b. (
      λ m. let (a, ma, mb) = each_elim body xs b m in (a, ma, (h a b).0 mb),
      λ w. each_intro body xs w.0 b w.1 ((h w.0 b).1 w.2),
    ),
  )

  pub Derives-each_ok {ℓ} :
      (body : A → Result (List B)) (P : A → B → Type ℓ) (xs : List A)
      → ((a : A) → Derives (body a) (P a))
      → Derives (each_ok xs body) (λ b. (a : A) × (contains xs a ≡ true) × P a b)
  unfolding each_ok
  Derives-each_ok body P [] h = ([], refl, λ b. (λ m. cc, λ w. cc (w.1)))
  Derives-each_ok body P (x ∷ xs) h =
      let (out, eq, iff) = h x in
      let (rest, eqs, iffs) = Derives-each_ok body P xs h in
      (
        out ++ rest,
        rw eq (rw eqs refl),
        λ b. (
          λ m. elim (Bool-cases (contains out b)) [
            | inl now ↦ (x, ground (arith, e.beq_iff x x), (iff b).0 now)
            | inr later ↦
                let (a, ma, pa) = (iffs b).0 (ground (arith, contains-append out rest b)) in
                (a, ground arith, pa)
          ],
          λ w. elim (Bool-cases (x == w.0)) [
            | inl same ↦
                let now = (iff b).1 (subst (λ c. P c b) (sym ((e.beq_iff x w.0).0 same)) w.2) in
                ground (arith, contains-append out rest b, now)
            | inr other ↦
                let later = (iffs b).1 (w.0, ground (arith, w.1), w.2) in
                ground (arith, contains-append out rest b, later)
          ],
        ),
      )

module _ {A B : Type 0} ⦃d : Eq B⦄ where
  -- the rest of a `do` block after a call that is known to succeed
  pub Derives-bind {ℓ} :
      (r : Result A) (f : A → Result (List B)) (P : B → Type ℓ) (a : A)
      → r ≡ ok a
      → Derives (f a) P
      → Derives (r >>= f) P
  Derives-bind r f P a e h = rw e h

module _ {B : Type 0} ⦃d : Eq B⦄ where
  pub Derives_iff {ℓ κ} :
      (r : Result (List B)) {P : B → Type ℓ} {Q : B → Type κ}
      → ((b : B) → P b ↔ Q b)
      → Derives r P
      → Derives r Q
  Derives_iff r h w = (w.0, w.1, λ b. (λ m. (h b).0 ((w.2 b).0 m), λ q. (w.2 b).1 ((h b).1 q)))
