-- ===== src/Collector/Series.antt =====
-- The samples of a scrape, and the identity of their series.
use directory_size_exporter.Base.{
  ℕ, ◌≡◌, ◌↔◌, refl, Bool, true, false, ◌&&◌, List, [], ◌∷◌, ◌++◌, map, Str, str_eq, str_beq_iff,
  Eq, ◌==◌, arith, All, ◌∙◌,
}
use directory_size_exporter.Base.Dict.{contains, Distinct}
use directory_size_exporter.Collector.Descs.{Desc, name_of}

-- The number of a sample, before its conversion to a float64: a flag, an unsigned or a signed word,
-- or a number of nanoseconds that stands for seconds.
pub data Value : Type 0 where
  flag : Bool → Value
  count : ℕ → Value
  signed : ℕ → Value
  seconds : ℕ → Value

-- `gauge` and `counter`
pub data Kind : Type 0 where
  gauge counter : Kind

pub record Sample : Type 0 where
  pub kind : Kind
  pub desc : Desc
  pub value : Value
  pub labels : List Str

-- Two lists of strings are equal.
unfoldable pub strs_beq : List Str → List Str → Bool
strs_beq [] [] = true
strs_beq (a ∷ s) (b ∷ t) = a == b && strs_beq s t
strs_beq _ _ = false

pub strs_beq_iff : (s t : List Str) → (strs_beq s t ≡ true) ↔ (s ≡ t)
unfolding strs_beq
strs_beq_iff [] [] = ground arith
strs_beq_iff [] (b ∷ t) = ground arith
strs_beq_iff (a ∷ s) [] = ground arith
strs_beq_iff (a ∷ s) (b ∷ t) = ground (arith, strs_beq_iff s t, str_beq_iff a b)

instance abbrev pub strs_eq : Eq (List Str)
strs_eq = record { beq = strs_beq; beq_iff = strs_beq_iff }

-- What Prometheus knows a series by: the name of the metric and the label values.
pub record Series : Type 0 where
  pub name : Str
  pub labels : List Str

abbrev pub series_beq : Series → Series → Bool
series_beq a b = a.name == b.name && strs_beq a.labels b.labels

pub series_beq_iff : (a b : Series) → (series_beq a b ≡ true) ↔ (a ≡ b)
series_beq_iff a b = ground (arith, str_beq_iff a.name b.name, strs_beq_iff a.labels b.labels)

instance abbrev pub series_eq : Eq Series
series_eq = record { beq = series_beq; beq_iff = series_beq_iff }

abbrev pub series_of : Sample → Series
series_of s = record { name = name_of s.desc; labels = s.labels }

-- `if b { … }` around the emission of some samples.
abbrev pub when {ℓ} : {A : Type ℓ} → Bool → List A → List A
when true xs = xs
when false xs = []

-- A list with some elements left out.
pub data Sub {A : Type 0} : List A → List A → Type 0 where
  done : Sub [] []
  keep : {xs ys : List A} (x : A) → Sub xs ys → Sub (x ∷ xs) (x ∷ ys)
  skip : {xs ys : List A} (x : A) → Sub xs ys → Sub xs (x ∷ ys)

pub Sub-self : {A : Type 0} (xs : List A) → Sub xs xs
Sub-self [] = done
Sub-self (x ∷ xs) = keep x (Sub-self xs)

pub Sub-append :
    {A : Type 0} {xs xs' ys ys' : List A} → Sub xs xs' → Sub ys ys' → Sub (xs ++ ys) (xs' ++ ys')
Sub-append done t = t
Sub-append (keep x s) t = keep x (Sub-append s t)
Sub-append (skip x s) t = skip x (Sub-append s t)

Sub-none : {A : Type 0} (ys : List A) → Sub [] ys
Sub-none [] = done
Sub-none (y ∷ ys) = skip y (Sub-none ys)

-- What a test may leave out.
pub Sub-when : {A : Type 0} (b : Bool) {xs ys : List A} → Sub xs ys → Sub (when b xs) ys
Sub-when true s = s
Sub-when false {ys} s = Sub-none ys

pub All-Sub : {A : Type 0} (P : A → Type 0) {xs ys : List A} → Sub xs ys → All P ys → All P xs
All-Sub P done h = tt
All-Sub P (keep x s) h = (h.0, All-Sub P s h.1)
All-Sub P (skip x s) h = All-Sub P s h.1

pub Sub-map : {A B : Type 0} (f : A → B) {xs ys : List A} → Sub xs ys → Sub (map f xs) (map f ys)
Sub-map f done = done
Sub-map f (keep x s) = keep (f x) (Sub-map f s)
Sub-map f (skip x s) = skip (f x) (Sub-map f s)

-- What a test lets through has `P` if it has it wherever the test holds.
pub All-when :
    {A B : Type 0} (P : B → Type 0) (f : A → B) (b : Bool) (xs : List A)
    → (b ≡ true → All P (map f xs))
    → All P (map f (when b xs))
All-when P f true xs h = h refl
All-when P f false xs h = tt

pub All-map-append :
    {A B : Type 0} (P : B → Type 0) (f : A → B) (xs ys : List A)
    → All P (map f xs)
    → All P (map f ys)
    → All P (map f (xs ++ ys))
All-map-append P f [] ys hx hy = hy
All-map-append P f (x ∷ xs) ys hx hy = (hx.0, All-map-append P f xs ys hx.1 hy)

pub All-weaken :
    {A : Type 0} (P Q : A → Type 0) (xs : List A) → ((x : A) → P x → Q x) → All P xs → All Q xs
All-weaken P Q [] h a = tt
All-weaken P Q (x ∷ xs) h a = (h x a.0, All-weaken P Q xs h a.1)

contains-Sub :
    {xs ys : List Series} (k : Series) → Sub xs ys → contains k ys ≡ false → contains k xs ≡ false
unfolding contains
contains-Sub k done h = h
contains-Sub k (keep x s) h = ground (arith, contains-Sub k s)
contains-Sub k (skip x s) h = ground (arith, contains-Sub k s)

pub Distinct-Sub : {xs ys : List Series} → Sub xs ys → Distinct ys → Distinct xs
Distinct-Sub done d = d
Distinct-Sub (keep x s) d = (contains-Sub x s d.0, Distinct-Sub s d.1)
Distinct-Sub (skip x s) d = Distinct-Sub s d.1

-- The series with one more label value in front.
abbrev pub for_target : Str → Series → Series
for_target t k = record { name = k.name; labels = t ∷ k.labels }

contains-for_target :
    (t : Str) (k : Series) (l : List Series)
    → contains (for_target t k) (map (for_target t) l) ≡ contains k l
unfolding contains strs_beq
contains-for_target t k [] = refl
contains-for_target t k (j ∷ l) = ground (arith, contains-for_target t k l, str_beq_iff t t)

pub Distinct-for_target : (t : Str) (l : List Series) → Distinct l → Distinct (map (for_target t) l)
Distinct-for_target t [] d = tt
Distinct-for_target t (k ∷ l) d = (contains-for_target t k l ∙ d.0, Distinct-for_target t l d.1)

-- The first of the label values is `t`.
abbrev pub starts_with : Str → List Str → Bool
starts_with t [] = false
starts_with t (l ∷ _) = l == t

abbrev pub is_for : Str → Series → Bool
is_for t k = starts_with t k.labels

pub All-is_for : (t : Str) (l : List Series) → All (λ k. is_for t k ≡ true) (map (for_target t) l)
All-is_for t [] = tt
All-is_for t (k ∷ l) = ((str_beq_iff t t).1 refl, All-is_for t l)
