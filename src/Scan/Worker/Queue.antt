-- ===== src/Scan/Worker/Queue.antt =====
-- What a worker's steps do to the directories that are queued (internal/scan/engine.go).
use directory_size_exporter.Base.{
  ℕ, ◌+◌, ◌^◌, ◌≤◌, ◌<◌, ◌≡◌, refl, sym, ap, ◌∙◌, Bool, true, false, List, [], ◌∷◌, ◌++◌, map,
  length, nat_beq, if◌then◌else◌, arith, inl, inr,
}
use directory_size_exporter.Scan.Target.{TargetScan, add_pending, complete_dir, finish}
use directory_size_exporter.Scan.Walk.{DirRef}
use directory_size_exporter.Scan.Pool.{
  Pool, got, push, push_conserves, next, next_shared, next_takes_last,
}
use directory_size_exporter.Scan.Latch.{WorkRef}
use directory_size_exporter.Scan.Worker.{Cycle, owned_by, publish_children}

unfoldable pub weigh : {A : Type 0} → (A → ℕ) → List A → ℕ
weigh f [] = 0
weigh f (x ∷ xs) = f x + weigh f xs

pub weigh-append :
    {A : Type 0} (f : A → ℕ) (xs ys : List A) → weigh f (xs ++ ys) ≡ weigh f xs + weigh f ys
unfolding weigh
weigh-append f [] ys = omega arith
weigh-append f (x ∷ xs) ys = omega (arith, weigh-append f xs ys)

-- What `weight` says of the directories of target `o`.
abbrev pub on : ℕ → (DirRef → ℕ) → WorkRef → ℕ
on o weight r = if nat_beq r.owner o then weight r.dir else 0

abbrev pub of_any : (DirRef → ℕ) → WorkRef → ℕ
of_any weight r = weight r.dir

abbrev pub one : DirRef → ℕ
one _ = 1

-- All that is queued.
abbrev pub queue : {W : Type 0} → Cycle W → List WorkRef
queue c = c.pool.deque ++ c.stack

pub weigh-owned_by :
    (o o' : ℕ) (weight : DirRef → ℕ) (dirs : List DirRef)
    → weigh (on o weight) (map (owned_by o') dirs) ≡ (if nat_beq o' o then weigh weight dirs else 0)
unfolding weigh
weigh-owned_by o o' weight [] = ground arith
weigh-owned_by o o' weight (dir ∷ dirs) = ground (arith, weigh-owned_by o o' weight dirs)

pub weigh-any :
    (o : ℕ) (weight : DirRef → ℕ) (dirs : List DirRef)
    → weigh (of_any weight) (map (owned_by o) dirs) ≡ weigh weight dirs
unfolding weigh
weigh-any o weight [] = refl
weigh-any o weight (dir ∷ dirs) = omega (arith, weigh-any o weight dirs)

pub weigh-one : (dirs : List DirRef) → weigh one dirs ≡ length dirs
unfolding weigh
weigh-one [] = refl
weigh-one (dir ∷ dirs) = omega (arith, weigh-one dirs)

got-inj : {r r' : WorkRef} → got r ≡ got r' → r ≡ r'
got-inj e = cc

pub next-closed : (p : Pool WorkRef) (stack : List WorkRef) → (next p stack).1.0.closed ≡ p.closed
unfolding next next_shared
next-closed p stack = ground arith

-- After `next` gives a directory, that one is missing from what is queued.
pub next-weigh :
    (f : WorkRef → ℕ) (p : Pool WorkRef) (stack : List WorkRef) (r : WorkRef)
    → (next p stack).0 ≡ got r
    → let (p', stack') = (next p stack).1 in
      (weigh f (p.deque ++ stack) ≡ f r + weigh f (p'.deque ++ stack')) × (p.closed ≡ false)
unfolding weigh
next-weigh f p stack r h =
    let (p', stack') = (next p stack).1 in
    elim (next_takes_last p stack) [
      | inl (r', e, live, inl (split, same)) ↦
          let same_r : r' ≡ r = got-inj (sym e ∙ h) in
          (
            omega (
              arith,
              weigh-append f p.deque stack,
              weigh-append f p'.deque stack',
              ap (weigh f) split,
              weigh-append f stack' (r' ∷ []),
              ap (λ (q : Pool WorkRef). weigh f q.deque) same,
              ap f same_r,
            ),
            live,
          )
      | inl (r', e, live, inr (empty, empty', split)) ↦
          let same_r : r' ≡ r = got-inj (sym e ∙ h) in
          (
            omega (
              arith,
              weigh-append f p.deque stack,
              weigh-append f p'.deque stack',
              ap (weigh f) split,
              weigh-append f p'.deque (r' ∷ []),
              ap (weigh f) empty,
              ap (weigh f) empty',
              ap f same_r,
            ),
            live,
          )
      | inr (same, same', inl (e, over)) ↦ absurd (ground (arith, h, e))
      | inr (same, same', inr (e, empty, none_there)) ↦ absurd (ground (arith, h, e))
    ]

push-weigh :
    (f : WorkRef → ℕ) (refs : List WorkRef) (p : Pool WorkRef) (stack : List WorkRef)
    → let (p', stack') = push refs p stack in
      (weigh f (p'.deque ++ stack') ≡ weigh f (p.deque ++ stack) + weigh f refs)
      × (p'.closed ≡ p.closed)
push-weigh f refs p stack =
    let (p', stack') = push refs p stack in
    let (whole, _, _, same) = push_conserves refs p stack in
    (
      omega (
        arith,
        ap (weigh f) whole,
        weigh-append f p.deque (stack ++ refs),
        weigh-append f stack refs,
        weigh-append f p.deque stack,
      ),
      same,
    )

module _ {W : Type 0} (o : ℕ) (t : TargetScan) (w : W) (c : Cycle W) where
  pub publish_children-weigh :
      (f : WorkRef → ℕ) (dirs : List DirRef)
      → weigh f (queue (publish_children o dirs t w c))
        ≡ weigh f (queue c) + weigh f (map (owned_by o) dirs)
  unfolding publish_children weigh
  publish_children-weigh f [] = omega arith
  publish_children-weigh f (dir ∷ dirs) =
      (push-weigh f (map (owned_by o) (dir ∷ dirs)) c.pool c.stack).0

  pub publish_children-closed :
      (dirs : List DirRef) → (publish_children o dirs t w c).pool.closed ≡ c.pool.closed
  unfolding publish_children
  publish_children-closed [] = refl
  publish_children-closed (dir ∷ dirs) =
      (push-weigh (λ _. 0) (map (owned_by o) (dir ∷ dirs)) c.pool c.stack).1

  pub publish_children-world : (dirs : List DirRef) → (publish_children o dirs t w c).world ≡ w
  unfolding publish_children
  publish_children-world [] = refl
  publish_children-world (dir ∷ dirs) = refl

  pub publish_children-other :
      (dirs : List DirRef) (o' : ℕ)
      → nat_beq o o' ≡ false
      → (publish_children o dirs t w c).targets o' ≡ c.targets o'
  unfolding publish_children
  publish_children-other [] o' h = ground (arith, h)
  publish_children-other (dir ∷ dirs) o' h = ground (arith, h)

  -- What becomes of the target itself.
  pub record Published (n : ℕ) (t' : TargetScan) : Type 0 where
    pub pending : 1 ≤ t.pending → t.pending + n < 2 ^ 64 → t'.pending + 1 ≡ t.pending + n
    pub flags :
        (p : ℕ) (d : Bool)
        → record t' { pending = p; done = d } ≡ record t { pending = p; done = d }
    pub finished : t'.pending ≡ 0 → t'.done ≡ true

  pub publish_children-Published :
      (dirs : List DirRef) → Published (length dirs) ((publish_children o dirs t w c).targets o)
  unfolding publish_children complete_dir add_pending finish
  publish_children-Published [] = record {
    pending = ground arith;
    flags = ground arith;
    finished = ground arith;
  }
  publish_children-Published (dir ∷ dirs) = record {
    pending = ground arith;
    flags = ground arith;
    finished = ground arith;
  }
