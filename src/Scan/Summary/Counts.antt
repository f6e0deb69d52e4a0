-- ===== src/Scan/Summary/Counts.antt =====
-- The errors in the summary of a scan (internal/scan/summary.go) are all that were tallied.
use directory_size_exporter.Base.{
  ℕ, ◌+◌, ◌%◌, ◌^◌, ◌<◌, ◌≡◌, refl, ap, subst, true, false, Option, none, some, All, List, [], ◌∷◌,
  Str, str_eq, str_beq, str_beq_iff, ◌==◌, if◌then◌else◌, arith, Bool-cases, inl, inr, add64,
  nat_beq,
}
use directory_size_exporter.Base.Dict.{
  lookup, insert, keys, contains, lookup-insert, Distinct, is_distinct, is_distinct_sound,
}
use directory_size_exporter.Scan.ErrClass.{
  Error, all_error_classes, classify, ErrorTally, count_of, add_error, merge_counts, merge,
}
use directory_size_exporter.Scan.ErrClass.Laws.{
  all_error_classes_exact, sum_counts, Tally, none_yet, added, merged, total_sums_counts,
}
use directory_size_exporter.Scan.Summary.{Attribute, number, text, flag, error_attributes}

-- The sum over a list of classes.
sum_over : (Str → ℕ) → List Str → ℕ
sum_over f [] = 0
sum_over f (class ∷ classes) = f class + sum_over f classes

abbrev counts_sum : List Str → List (Str × ℕ) → ℕ
counts_sum classes counts = sum_over (λ class. count_of class counts) classes

count_of-insert :
    (class j : Str) (n : ℕ) (counts : List (Str × ℕ))
    → count_of j (insert class n counts) ≡ (if class == j then n else count_of j counts)
count_of-insert class j n counts = ground (arith, lookup-insert class j n counts)

count_of-insert_ne :
    (class j : Str) (n : ℕ) (counts : List (Str × ℕ))
    → (class == j) ≡ false
    → count_of j (insert class n counts) ≡ count_of j counts
count_of-insert_ne class j n counts other = ground (arith, count_of-insert class j n counts, other)

-- A write to a class that is not in the list changes nothing, and one to a class that is there trades
-- the old count for the new one.
counts_sum-outside :
    (class : Str) (n : ℕ) (counts : List (Str × ℕ)) (classes : List Str)
    → contains class classes ≡ false
    → counts_sum classes (insert class n counts) ≡ counts_sum classes counts
unfolding sum_over contains
counts_sum-outside class n counts [] h = refl
counts_sum-outside class n counts (j ∷ classes) h =
    let other : (class == j) ≡ false =
      ground (arith, h, str_beq_iff class j, str_beq_iff j class) in
    omega (
      arith,
      counts_sum-outside class n counts classes (ground (arith, h)),
      count_of-insert_ne class j n counts other,
    )

counts_sum-insert :
    (class : Str) (n : ℕ) (counts : List (Str × ℕ)) (classes : List Str)
    → Distinct classes
    → contains class classes ≡ true
    → counts_sum classes (insert class n counts) + count_of class counts
      ≡ counts_sum classes counts + n
unfolding sum_over contains
counts_sum-insert class n counts [] d h = absurd (ground (arith, h))
counts_sum-insert class n counts (j ∷ classes) d h = elim (Bool-cases (j == class)) [
  | inl same ↦
      let e : j ≡ class = (str_beq_iff j class).0 same in
      let here : count_of j (insert class n counts) ≡ n =
        ground (arith, count_of-insert class j n counts, str_beq_iff class j, e) in
      let absent : contains class classes ≡ false = subst (λ k. contains k classes ≡ false) e d.0 in
      omega (
        arith,
        here,
        ap (λ k. count_of k counts) e,
        counts_sum-outside class n counts classes absent,
      )
  | inr other ↦
      let apart : (class == j) ≡ false =
        ground (arith, other, str_beq_iff class j, str_beq_iff j class) in
      omega (
        arith,
        counts_sum-insert class n counts classes d.1 (ground (arith, h, other)),
        count_of-insert_ne class j n counts apart,
      )
]

abbrev IsKnown : Str → Type 0
IsKnown class = contains class all_error_classes ≡ true

classes-Distinct : Distinct all_error_classes
unfolding is_distinct contains str_beq
classes-Distinct = is_distinct_sound all_error_classes refl

keys-insert-All :
    (class : Str) (n : ℕ) (counts : List (Str × ℕ))
    → IsKnown class
    → All IsKnown (keys counts)
    → All IsKnown (keys (insert class n counts))
unfolding insert
keys-insert-All class n [] known all = (known, tt)
keys-insert-All class n ((j, w) ∷ counts) known all = elim (Bool-cases (j == class)) [
  | inl same ↦ rw same all
  | inr other ↦ rw other (all.0, keys-insert-All class n counts known all.1)
]

-- The classes of a tally are the listed ones, and their counts add up to its total.
record Sums (t : ErrorTally) : Type 0 where
  known : All IsKnown (keys t.counts)
  summed : counts_sum all_error_classes t.counts % 2 ^ 64 ≡ t.total % 2 ^ 64

add_class-Sums :
    (class : Str) (t : ErrorTally)
    → IsKnown class
    → Sums t
    → Sums (record t {
      counts = insert class (add64 (count_of class t.counts) 1) t.counts;
      total = add64 t.total 1;
    })
add_class-Sums class t listed s =
    let n = add64 (count_of class t.counts) 1 in
    record {
      known = keys-insert-All class n t.counts listed s.known;
      summed = omega (
        arith,
        s.summed,
        counts_sum-insert class n t.counts all_error_classes classes-Distinct listed,
      );
    }

add_error-Sums : (err : Option Error) (t : ErrorTally) → Sums t → Sums (add_error err t)
unfolding add_error
add_error-Sums err t s = elim (Bool-cases (classify err == [])) [
  | inl none_there ↦ rw none_there s
  | inr some_class ↦ rw some_class (add_class-Sums (classify err) t (known_class err some_class) s)
]
  where
    known_class : (err : Option Error) → (classify err == []) ≡ false → IsKnown (classify err)
    known_class none h = absurd (
        ground (
          arith,
          h,
          (str_beq_iff (classify none) []).1
              (all_error_classes_exact (record {
                is_permission = false;
                is_not_exist = false;
                is_eof = false;
                errno = none;
              })).2,
        ))
    known_class (some err) h = (all_error_classes_exact err).0

merge_counts-sums :
    (other counts : List (Str × ℕ))
    → All IsKnown (keys other)
    → All IsKnown (keys counts)
    → All IsKnown (keys (merge_counts other counts))
      × (counts_sum all_error_classes (merge_counts other counts) % 2 ^ 64
          ≡ (sum_counts other + counts_sum all_error_classes counts) % 2 ^ 64)
unfolding merge_counts sum_counts
merge_counts-sums [] counts others known = (known, omega arith)
merge_counts-sums ((class, n) ∷ other) counts others known =
    let sum = add64 (count_of class counts) n in
    let (all, same) =
      merge_counts-sums other (insert class sum counts) others.1
        (keys-insert-All class sum counts others.0 known) in
    (
      all,
      omega (
        arith,
        same,
        counts_sum-insert class sum counts all_error_classes classes-Distinct others.0,
      ),
    )

Tally-Sums : {t : ErrorTally} → Tally t → Sums t
unfolding merge sum_over lookup
Tally-Sums none_yet = record { known = tt; summed = refl }
Tally-Sums (added {t} err h) = add_error-Sums err t (Tally-Sums h)
Tally-Sums (merged {other} {t} h k) = elim (Bool-cases (nat_beq other.total 0)) [
  | inl nothing ↦ rw nothing (Tally-Sums k)
  | inr some_there ↦
      let s = Tally-Sums h in
      let s' = Tally-Sums k in
      let (all, same) = merge_counts-sums other.counts t.counts s.known s'.known in
      rw some_there
        (record { known = all; summed = omega (arith, same, s'.summed, total_sums_counts other h) })
]

-- The sum of the numbers of attributes.
unfoldable pub sum_numbers : List (Str × Attribute) → ℕ
sum_numbers [] = 0
sum_numbers ((_, number n) ∷ attrs) = n + sum_numbers attrs
sum_numbers ((_, text _) ∷ attrs) = sum_numbers attrs
sum_numbers ((_, flag _) ∷ attrs) = sum_numbers attrs

error_attributes-sum :
    (counts : List (Str × ℕ)) (classes : List Str)
    → ((class : Str) → count_of class counts < 2 ^ 63)
    → sum_numbers (error_attributes counts classes) ≡ counts_sum classes counts
unfolding error_attributes sum_numbers sum_over
error_attributes-sum counts [] small = refl
error_attributes-sum counts (class ∷ classes) small =
    ground (arith, error_attributes-sum counts classes small, small class)

-- The error counts in the summary of a scan add up to the total that is shown beside them, modulo
-- 2 ^ 64, for every tally that adding errors and merging tallies make and whose counts are below
-- 2 ^ 63.
pub error_attributes-total :
    (t : ErrorTally)
    → Tally t
    → ((class : Str) → count_of class t.counts < 2 ^ 63)
    → sum_numbers (error_attributes t.counts all_error_classes) % 2 ^ 64 ≡ t.total % 2 ^ 64
error_attributes-total t h small =
    omega (arith, error_attributes-sum t.counts all_error_classes small, (Tally-Sums h).summed)
