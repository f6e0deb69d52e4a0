-- ===== src/Base/Dict.antt =====
-- Go maps as association lists. A map that is nil or empty is `[]`; iteration visits the entries in
-- the order of the list, where Go leaves the order open.
use mathlib.Core.Path.{◌≡◌, refl, subst}
use mathlib.Core.Logic.{◌≢◌, inl, inr}
use mathlib.Core.Bool.{Bool, true, false, ◌||◌, ◌&&◌, not}
use mathlib.Core.Option.{Option, none, some}
use mathlib.Core.List.{List, [], ◌∷◌, ◌++◌}
use native.Mathlib.Omega.{arith}
use directory_size_exporter.Base.Tests.{if◌then◌else◌, Bool-cases}
use directory_size_exporter.Base.Lists.{All}
use directory_size_exporter.Base.Keys.{Eq, ◌==◌, eq_refl}

-- The key is absent.
abbrev pub is_none {ℓ} : {A : Type ℓ} → Option A → Bool
is_none none = true
is_none (some _) = false

abbrev pub is_some {ℓ} : {A : Type ℓ} → Option A → Bool
is_some none = false
is_some (some _) = true

module _ {ℓ} {K : Type ℓ} ⦃e : Eq K⦄ where
  -- `x ∈ l`, as a test.
  unfoldable pub contains : K → List K → Bool
  contains k [] = false
  contains k (j ∷ l) = j == k || contains k l

  -- No element occurs twice.
  abbrev pub Distinct : List K → Type 0
  Distinct [] = Unit
  Distinct (k ∷ l) = (contains k l ≡ false) × Distinct l

  -- The same as a test.
  unfoldable pub is_distinct : List K → Bool
  is_distinct [] = true
  is_distinct (k ∷ l) = not (contains k l) && is_distinct l

  pub is_distinct_sound : (l : List K) → is_distinct l ≡ true → Distinct l
  unfolding is_distinct
  is_distinct_sound [] h = tt
  is_distinct_sound (k ∷ l) h = (ground arith, is_distinct_sound l (ground arith))

  -- An element that passes a test is in no list of elements that fail it.
  pub outside :
      (p : K → Bool) (k : K) (r : List K)
      → p k ≡ true
      → All (λ j. p j ≡ false) r
      → contains k r ≡ false
  unfolding contains
  outside p k [] hk h = refl
  outside p k (j ∷ r) hk h = elim (Bool-cases (j == k)) [
    | inl same ↦
        let equal : j ≡ k = (e.beq_iff j k).0 same in
        let clash : p k ≡ false = rw (← equal) h.0 in absurd (ground (arith, hk, clash))
    | inr other ↦ ground (arith, other, outside p k r hk h.1)
  ]

  pub contains-append :
      (k : K) (l r : List K) → contains k (l ++ r) ≡ (contains k l || contains k r)
  unfolding contains
  contains-append k [] r = refl
  contains-append k (j ∷ l) r = ground (arith, contains-append k l r)

  -- What holds of every element holds of one that the test finds.
  pub All-contains : (P : K → Type 0) (l : List K) → All P l → (k : K) → contains k l ≡ true → P k
  unfolding contains
  All-contains P [] h k found = absurd (ground (arith, found))
  All-contains P (j ∷ l) h k found = elim (Bool-cases (j == k)) [
    | inl same ↦ subst P ((e.beq_iff j k).0 same) h.0
    | inr other ↦ All-contains P l h.1 k (ground (arith, found, other))
  ]

  -- Lists of distinct elements that a test tells apart.
  pub Distinct-append :
      (p : K → Bool) (l r : List K)
      → Distinct l
      → Distinct r
      → All (λ k. p k ≡ true) l
      → All (λ k. p k ≡ false) r
      → Distinct (l ++ r)
  Distinct-append p [] r dl dr hl hr = dr
  Distinct-append p (k ∷ l) r dl dr hl hr = (
    ground (arith, contains-append k l r, outside p k r hl.0 hr, dl.0),
    Distinct-append p l r dl.1 dr hl.1 hr,
  )

module _ {ℓ κ} {K : Type ℓ} {V : Type κ} where
  abbrev pub keys : List (K × V) → List K
  keys [] = []
  keys ((k, _) ∷ m) = k ∷ keys m

module _ {ℓ κ} {K : Type ℓ} {V : Type κ} ⦃e : Eq K⦄ where
  -- `v, ok := m[k]`
  unfoldable pub lookup : K → List (K × V) → Option V
  lookup k [] = none
  lookup k ((j, v) ∷ m) = if j == k then some v else lookup k m

  -- `m[k] = v`
  unfoldable pub insert : K → V → List (K × V) → List (K × V)
  insert k v [] = (k, v) ∷ []
  insert k v ((j, w) ∷ m) = if j == k then (j, v) ∷ m else (j, w) ∷ insert k v m

  -- `delete(m, k)`
  unfoldable pub delete : K → List (K × V) → List (K × V)
  delete k [] = []
  delete k ((j, w) ∷ m) = let rest = delete k m in if j == k then rest else (j, w) ∷ rest

  -- `_, ok := m[k]`
  abbrev pub has : K → List (K × V) → Bool
  has k m = is_some (lookup k m)

  pub lookup-insert :
      (written read : K) (v : V) (entries : List (K × V))
      → lookup read (insert written v entries)
        ≡ (if written == read then some v else lookup read entries)
  unfolding lookup insert
  lookup-insert written read v [] = refl
  lookup-insert written read v ((key, old) ∷ entries) = ground (
    arith,
    lookup-insert written read v entries,
    e.beq_iff written read,
    e.beq_iff key written,
    e.beq_iff key read,
  )

  pub lookup-insert_self : (k : K) (v : V) (m : List (K × V)) → lookup k (insert k v m) ≡ some v
  lookup-insert_self k v m = simp (lookup-insert, eq_refl)

  pub lookup-insert_ne :
      (k j : K) (v : V) (m : List (K × V)) → k ≢ j → lookup j (insert k v m) ≡ lookup j m
  lookup-insert_ne k j v m h = ground (arith, lookup-insert k j v m, e.beq_iff k j)

  pub lookup-delete :
      (k j : K) (m : List (K × V)) → lookup j (delete k m) ≡ (if k == j then none else lookup j m)
  unfolding lookup delete
  lookup-delete k j [] = ground arith
  lookup-delete k j ((i, w) ∷ m) =
      ground (arith, e.beq_iff k j, e.beq_iff i k, e.beq_iff i j, lookup-delete k j m)

  pub contains-keys : (k : K) (m : List (K × V)) → contains k (keys m) ≡ has k m
  unfolding contains lookup
  contains-keys k [] = refl
  contains-keys k ((j, v) ∷ m) = ground (arith, contains-keys k m)

  -- A write to a key that is there keeps the list of keys.
  pub keys-insert_old :
      (k : K) (v : V) (m : List (K × V)) → has k m ≡ true → keys (insert k v m) ≡ keys m
  unfolding lookup insert
  keys-insert_old k v [] h = cc
  keys-insert_old k v ((j, w) ∷ m) h = ground (arith, keys-insert_old k v m)

  pub contains-keys-insert :
      (k j : K) (v : V) (m : List (K × V))
      → contains j (keys (insert k v m)) ≡ (k == j || contains j (keys m))
  unfolding contains insert
  contains-keys-insert k j v [] = refl
  contains-keys-insert k j v ((i, w) ∷ m) =
      ground (arith, e.beq_iff i k, e.beq_iff i j, e.beq_iff k j, contains-keys-insert k j v m)

  pub Distinct-insert :
      (k : K) (v : V) (m : List (K × V)) → Distinct (keys m) → Distinct (keys (insert k v m))
  unfolding insert contains
  Distinct-insert k v [] d = (refl, tt)
  Distinct-insert k v ((j, w) ∷ m) d = elim (Bool-cases (j == k)) [
    | inl same ↦ rw same d
    | inr other ↦ rw other (
      ground (arith, contains-keys-insert k j v m, e.beq_iff j k, e.beq_iff k j, d.0),
      Distinct-insert k v m d.1,
    )
  ]
