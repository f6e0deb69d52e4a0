-- ===== src/Config/Printed/Digits.antt =====
-- The decimal digits that a setting is printed with (internal/config/registry.go) are read back.
use mathlib.Core.Option
use directory_size_exporter.Base.{
  true, ℕ, zero, suc, ◌+◌, ◌-◌, ◌*◌, ◌/◌, ◌%◌, ◌^◌, ◌≤◌, ◌<◌, ◌≡◌, refl, ◌∙◌, false, Bool-cases,
  inl, inr, ◌&&◌, some, [], ◌∷◌, ◌++◌, All, All-append, Str, str_eq, arith, ltb, leb,
}
use directory_size_exporter.Targets.Paths.{
  is_space, trim_by, back_onto, space_at_start, space_at_end, trim_space, is_empty,
}
use mathlib.Core.List.{append-nil}
use directory_size_exporter.Config.Fields.{unsigned, non_negative, digits, atoi}
use directory_size_exporter.Config.Printed.{show_digits, itoa}

-- The numbers of so many digits.
abbrev power : ℕ → ℕ
power zero = 1
power (suc fuel) = 10 * power fuel

digits-append_one :
    (s : Str) (n m d : ℕ)
    → d < 10
    → digits s n ≡ some m
    → digits (s ++ (48 + d) ∷ []) n ≡ some (m * 10 + d)
unfolding digits
digits-append_one [] n m d small h = ground (arith, small, h)
digits-append_one (c ∷ s) n m d small h = elim (Bool-cases (leb 48 c && leb c 57)) [
  | inl digit ↦
      let rest = digits-append_one s (n * 10 + (c - 48)) m d small (ground (arith, h, digit)) in
      ground (arith, digit, rest)
  | inr other ↦ absurd (ground (arith, h, other))
]

digits-show_digits : (fuel n : ℕ) → n < power fuel → digits (show_digits fuel n) 0 ≡ some n
unfolding show_digits digits
digits-show_digits zero n h = ground (arith, h)
digits-show_digits (suc fuel) n h = elim (Bool-cases (ltb n 10)) [
  | inl small ↦ ground (arith, small)
  | inr large ↦
      let quotient : n / 10 < power fuel = omega (arith, h) in
      let digit : n % 10 < 10 = omega arith in
      let rest =
        digits-append_one (show_digits fuel (n / 10)) 0 (n / 10) (n % 10) digit
          (digits-show_digits fuel (n / 10) quotient) in
      let total : (n / 10) * 10 + n % 10 ≡ n = omega arith in rw (large, rest, total) refl
]

abbrev IsDigit : ℕ → Type 0
IsDigit c = (48 ≤ c) × (c ≤ 57)

show_digits-IsDigit : (fuel n : ℕ) → All IsDigit (show_digits fuel n)
unfolding show_digits
show_digits-IsDigit zero n = tt
show_digits-IsDigit (suc fuel) n = elim (Bool-cases (ltb n 10)) [
  | inl small ↦ rw small ((omega arith, ground (arith, small)), tt)
  | inr large ↦ rw large (
      All-append IsDigit (show_digits fuel (n / 10)) ((48 + n % 10) ∷ [])
        (show_digits-IsDigit fuel (n / 10)) ((omega arith, omega arith), tt))
]

show_digits_nonempty : (fuel n : ℕ) → is_empty (show_digits (suc fuel) n) ≡ false
unfolding show_digits is_empty
show_digits_nonempty fuel n = elim (Bool-cases (ltb n 10)) [
  | inl small ↦ ground (arith, small)
  | inr large ↦ rw large (longer (show_digits fuel (n / 10)))
]
  where
    longer : (s : Str) → is_empty (s ++ (48 + n % 10) ∷ []) ≡ false
    longer [] = refl
    longer (_ ∷ _) = refl

-- A text that neither starts nor ends with white space.
abbrev pub IsTrimmed : Str → Type 0
IsTrimmed s = (space_at_start s ≡ 0) × (space_at_end (back_onto [] s) ≡ 0)

trim_by-nothing : (width : Str → ℕ) (s : Str) → width s ≡ 0 → trim_by width 0 s ≡ s
unfolding trim_by
trim_by-nothing width [] h = refl
trim_by-nothing width (c ∷ s) h = ground (arith, h)

back_twice : (s t u : Str) → back_onto s (back_onto t u) ≡ back_onto (u ++ s) t
unfolding back_onto
back_twice s t [] = refl
back_twice s t (c ∷ u) = back_twice s (c ∷ t) u

back_again : (s : Str) → back_onto [] (back_onto [] s) ≡ s
unfolding back_onto
back_again s = back_twice [] [] s ∙ append-nil s

pub trim_space-IsTrimmed : (s : Str) → IsTrimmed s → trim_space s ≡ s
unfolding trim_space
trim_space-IsTrimmed s (start, end) =
    rw (trim_by-nothing space_at_start s start, trim_by-nothing space_at_end (back_onto [] s) end)
      (back_again s)

-- A text of ASCII without spaces.
abbrev pub IsSolid : Str → Type 0
IsSolid s = All (λ c. (is_space c ≡ false) × (ltb c 128 ≡ true)) s

back_onto-IsSolid : (s t : Str) → IsSolid s → IsSolid t → IsSolid (back_onto s t)
unfolding back_onto
back_onto-IsSolid s [] hs ht = hs
back_onto-IsSolid s (c ∷ t) hs (solid, more) = back_onto-IsSolid (c ∷ s) t (solid, hs) more

space_at_start-IsSolid : (s : Str) → IsSolid s → space_at_start s ≡ 0
unfolding space_at_start
space_at_start-IsSolid [] h = refl
space_at_start-IsSolid (a ∷ []) h = ground (arith, h.0)
space_at_start-IsSolid (a ∷ b ∷ []) h = ground (arith, h.0, h.1.0)
space_at_start-IsSolid (a ∷ b ∷ c ∷ s) h = ground (arith, h.0, h.1.0)

space_at_end-IsSolid : (s : Str) → IsSolid s → space_at_end s ≡ 0
unfolding space_at_end
space_at_end-IsSolid [] h = refl
space_at_end-IsSolid (a ∷ []) h = ground (arith, h.0)
space_at_end-IsSolid (a ∷ b ∷ []) h = ground (arith, h.0, h.1.0)
space_at_end-IsSolid (a ∷ b ∷ c ∷ s) h = ground (arith, h.0, h.1.0)

pub IsSolid-IsTrimmed : (s : Str) → IsSolid s → IsTrimmed s
IsSolid-IsTrimmed s h = (
  space_at_start-IsSolid s h,
  space_at_end-IsSolid (back_onto [] s) (back_onto-IsSolid [] s tt h),
)

pub trim_space-IsSolid : (s : Str) → IsSolid s → trim_space s ≡ s
trim_space-IsSolid s h = trim_space-IsTrimmed s (IsSolid-IsTrimmed s h)

IsDigit-IsSolid : (s : Str) → All IsDigit s → IsSolid s
IsDigit-IsSolid [] h = tt
IsDigit-IsSolid (c ∷ s) (digit, more) =
    ((ground (arith, digit), ground (arith, digit)), IsDigit-IsSolid s more)

pub itoa-IsSolid : (n : ℕ) → IsSolid (itoa n)
itoa-IsSolid n = elim (Bool-cases (ltb n (2 ^ 63))) [
  | inl positive ↦ rw positive (IsDigit-IsSolid _ (show_digits-IsDigit 20 n))
  | inr negative ↦
      rw negative ((refl, refl), IsDigit-IsSolid _ (show_digits-IsDigit 20 (2 ^ 64 - n)))
]

unsigned_lem : (s : Str) (k : ℕ) → digits s 0 ≡ some k → is_empty s ≡ false → unsigned s ≡ some k
unfolding is_empty
unsigned_lem [] k h full = absurd (ground (arith, full))
unsigned_lem (c ∷ s) k h full = h

atoi-IsDigit : (s : Str) → All IsDigit s → is_empty s ≡ false → atoi s ≡ non_negative s
unfolding atoi is_empty
atoi-IsDigit [] h full = absurd (ground (arith, full))
atoi-IsDigit (c ∷ s) (digit, more) full = ground (arith, digit)

unsigned-show_digits : (n : ℕ) → n < 2 ^ 64 → unsigned (show_digits 20 n) ≡ some n
unsigned-show_digits n h =
    unsigned_lem (show_digits 20 n) n (digits-show_digits 20 n (omega (arith, h)))
      (show_digits_nonempty 19 n)

-- An int of 64 bits is read back from its decimal digits.
pub atoi-itoa : (n : ℕ) → n < 2 ^ 64 → atoi (itoa n) ≡ some n
unfolding atoi Option.bind
atoi-itoa n h = elim (Bool-cases (ltb n (2 ^ 63))) [
  | inl positive ↦ rw positive (
      atoi-IsDigit (show_digits 20 n) (show_digits-IsDigit 20 n) (show_digits_nonempty 19 n)
      ∙ ground (arith, positive, unsigned-show_digits n h))
  | inr negative ↦
      rw negative
        (ground (arith, negative, h, unsigned-show_digits (2 ^ 64 - n) (ground (arith, negative))))
]
