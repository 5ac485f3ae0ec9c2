-- ===== src/Engine/JsonNumber/Rewritten.antt =====
-- What rewriting keeps: crates/service-engine/src/json_number.rs, `feature_independent_value`.
use Prim.Native.Nat.{suc}
use service_sdk.Base.{
  ℕ, String, Bool, true, false, ◌≡◌, refl, ap, ◌∙◌, Option, none, some, ◌&&◌, ◌==◌, eqb, eq_iff,
  Bool-cases, Option-cases, inl, inr, arith,
}
use service_sdk.Engine.JsonNumber.{
  ℤ, pos, negsuc, Numbers, Value, Items, Members, null, boolean, number, text, array, object, nil,
  cons, end, member, FeatureIndependent, integer, binary, unrepresentable, int_eq, of, of_i64,
  of_u64, of_f64, feature_eq, count_items, count_members, get_member, json_equal, equal_items,
  equal_members, rewritten, feature_independent_value, rewrite_items, rewrite_members, or_number,
  integral, unsigned,
}

-- What the code relies on in numbers: a number made from an integer or an `f64` reads as it, and a
-- finite `f64` equals itself.
pub record IsFaithful {N F : Type 0} (ops : Numbers N F) : Type 0 where
  pub as-from_i64 : (v : N) (i : ℤ) → ops.as_i64 v ≡ some i → ops.as_i64 (ops.from_i64 i) ≡ some i
  pub from-as_u64 :
      (v : N) (n : ℕ)
      → ops.as_u64 v ≡ some n
      → (ops.as_i64 (ops.from_u64 n) ≡ ops.as_i64 v) × (ops.as_u64 (ops.from_u64 n) ≡ some n)
  pub as-from_f64 :
      (b : F) (m : N)
      → ops.from_f64 b ≡ some m
      → (ops.as_i64 m ≡ none) × (ops.as_u64 m ≡ none) × (ops.as_f64 m ≡ some b)
  pub eq-refl : (b : F) → ops.is_finite b ≡ true → ops.f64_eq b b ≡ true

module _ {N F : Type 0} (ops : Numbers N F) (laws : IsFaithful ops) where
  int_eq_refl : (i : ℤ) → int_eq i i ≡ true
  int_eq_refl (pos n) = ground arith
  int_eq_refl (negsuc n) = ground arith

  of-i64 : (n : N) (i : ℤ) → ops.as_i64 n ≡ some i → of ops n ≡ integer i
  unfolding of
  of-i64 n i e = ap (of_i64 ops n) e

  of-u64 :
      (n : N) (m : ℕ) → ops.as_i64 n ≡ none → ops.as_u64 n ≡ some m → of ops n ≡ integer (pos m)
  unfolding of
  of-u64 n m no_i64 e = ap (of_i64 ops n) no_i64 ∙ ap (of_u64 ops n) e

  of-f64 :
      (n : N) (o : Option F)
      → ops.as_i64 n ≡ none
      → ops.as_u64 n ≡ none
      → ops.as_f64 n ≡ o
      → of ops n ≡ of_f64 ops n o
  unfolding of
  of-f64 n o no_i64 no_u64 e =
      ap (of_i64 ops n) no_i64 ∙ ap (of_u64 ops n) no_u64 ∙ ap (of_f64 ops n) e

  -- A number and the one it is rewritten to read the same.
  abbrev Kept : N → Type 0
  Kept n = feature_eq ops (of ops n) (of ops (rewritten ops n (of ops n))) ≡ true

  kept :
      (n m : N) (f : FeatureIndependent F)
      → of ops n ≡ f
      → rewritten ops n f ≡ m
      → of ops m ≡ f
      → feature_eq ops f f ≡ true
      → Kept n
  kept n m f own to back same =
      ap (λ g. feature_eq ops g (of ops (rewritten ops n g))) own
      ∙ ap (λ k. feature_eq ops f (of ops k)) to
      ∙ ap (feature_eq ops f) back
      ∙ same

  text-Kept : (n : N) → of ops n ≡ unrepresentable (ops.to_string n) → Kept n
  text-Kept n own = kept n n (unrepresentable (ops.to_string n)) own refl own ((eq_iff _ _).1 refl)

  float-Kept : (n : N) (b : F) → of ops n ≡ binary b → ops.is_finite b ≡ true → Kept n
  float-Kept n b own finite = elim (Option-cases (ops.from_f64 b)) [
    | inl no_number ↦
        kept n n (binary b) own (ap (or_number n) no_number) own (laws.eq-refl b finite)
    | inr (m, e) ↦
        let (no_i64, no_u64, reads) = laws.as-from_f64 b m e in
        kept n m (binary b) own (ap (or_number n) e)
          (of-f64 m (some b) no_i64 no_u64 reads ∙ rw finite refl) (laws.eq-refl b finite)
  ]

  number-Kept : (n : N) → Kept n
  number-Kept n = elim (Option-cases (ops.as_i64 n)) [
    | inr (i, e) ↦
        kept n (ops.from_i64 i) (integer i) (of-i64 n i e)
          (ap (λ o. or_number n (integral ops n o)) e)
          (of-i64 (ops.from_i64 i) i (laws.as-from_i64 n i e)) (int_eq_refl i)
    | inl no_i64 ↦ elim (Option-cases (ops.as_u64 n)) [
      | inr (m, e) ↦
          let (same, reads) = laws.from-as_u64 n m e in
          kept n (ops.from_u64 m) (integer (pos m)) (of-u64 n m no_i64 e)
            (ap (λ o. or_number n (integral ops n o)) no_i64
              ∙ ap (λ o. or_number n (unsigned ops o)) e)
            (of-u64 (ops.from_u64 m) m (same ∙ no_i64) reads) (int_eq_refl (pos m))
      | inl no_u64 ↦ elim (Option-cases (ops.as_f64 n)) [
        | inl no_f64 ↦ text-Kept n (of-f64 n none no_i64 no_u64 no_f64)
        | inr (b, e) ↦ elim (Bool-cases (ops.is_finite b)) [
          | inl finite ↦ float-Kept n b (of-f64 n (some b) no_i64 no_u64 e ∙ rw finite refl) finite
          | inr infinite ↦ text-Kept n (of-f64 n (some b) no_i64 no_u64 e ∙ rw infinite refl)
        ]
      ]
    ]
  ]

-- Each of the members is the one that its key finds.
abbrev Found : {N : Type 0} → Members N → Members N → Type 0
Found end all = Unit
Found (member k v ms) all = (get_member k all ≡ some v) × Found ms all

-- No object of the value has a key twice.
unfoldable mutual
  pub Unique : {N : Type 0} → Value N → Type 0
  Unique (array xs) = UniqueItems xs
  Unique (object ms) = Found ms ms × UniqueMembers ms
  Unique _ = Unit

  pub UniqueItems : {N : Type 0} → Items N → Type 0
  UniqueItems nil = Unit
  UniqueItems (cons x xs) = Unique x × UniqueItems xs

  pub UniqueMembers : {N : Type 0} → Members N → Type 0
  UniqueMembers end = Unit
  UniqueMembers (member k v ms) = Unique v × UniqueMembers ms

module _ {N F : Type 0} (ops : Numbers N F) (laws : IsFaithful ops) where
  count_items-rewrite : (xs : Items N) → count_items (rewrite_items ops xs) ≡ count_items xs
  unfolding count_items feature_independent_value
  count_items-rewrite nil = refl
  count_items-rewrite (cons x xs) = ap suc (count_items-rewrite xs)

  count_members-rewrite :
      (ms : Members N) → count_members (rewrite_members ops ms) ≡ count_members ms
  unfolding count_members feature_independent_value
  count_members-rewrite end = refl
  count_members-rewrite (member k v ms) = ap suc (count_members-rewrite ms)

  get_member-rewrite :
      (k : String) (v : Value N) (ms : Members N)
      → get_member k ms ≡ some v
      → get_member k (rewrite_members ops ms) ≡ some (feature_independent_value ops v)
  unfolding get_member feature_independent_value
  get_member-rewrite k v end h = cc
  get_member-rewrite k v (member j w ms) h = elim (Bool-cases (j == k)) [
    | inl own ↦
        let same : w ≡ v = ground (arith, rw own at h) in
        rw own (ap (λ u. some (feature_independent_value ops u)) same)
    | inr other ↦ rw other (get_member-rewrite k v ms (rw other at h))
  ]

  as_long : (n : ℕ) {b : Bool} → b ≡ true → (eqb n n && b) ≡ true
  as_long n h = ground (arith, h)

  mutual
    unfolding json_equal feature_independent_value Unique

    rewritten-equal :
        (v : Value N) → Unique v → json_equal ops v (feature_independent_value ops v) ≡ true
    rewritten-equal null u = refl
    rewritten-equal (boolean true) u = refl
    rewritten-equal (boolean false) u = refl
    rewritten-equal (number n) u = number-Kept ops laws n
    rewritten-equal (text s) u = (eq_iff s s).1 refl
    rewritten-equal (array xs) u =
        rw (count_items-rewrite xs) (as_long (count_items xs) (items-equal xs u))
    rewritten-equal (object ms) (found, u) =
        rw (count_members-rewrite ms) (as_long (count_members ms) (members-equal ms ms found u))

    items-equal : (xs : Items N) → UniqueItems xs → equal_items ops xs (rewrite_items ops xs) ≡ true
    items-equal nil u = refl
    items-equal (cons x xs) (u, us) = rw (rewritten-equal x u, items-equal xs us) refl

    members-equal :
        (ms all : Members N)
        → Found ms all
        → UniqueMembers ms
        → equal_members ops ms (rewrite_members ops all) ≡ true
    members-equal end all found u = refl
    members-equal (member k v ms) all (here, found) (u, us) =
        rw (get_member-rewrite k v all here, rewritten-equal v u, members-equal ms all found us)
          refl

  -- Over numbers that read as what they were made from (`IsFaithful`), a JSON value whose objects have
  -- no key twice is equal, by `json_equal`, to its rewriting without `arbitrary_precision`.
  pub json_equal-feature_independent_value :
      (v : Value N) → Unique v → json_equal ops v (feature_independent_value ops v) ≡ true
  json_equal-feature_independent_value v u = rewritten-equal v u
