-- ===== src/Scan/Pool.antt =====
-- The work pool of internal/scan/engine.go. A slice is the list of its elements in order, so both
-- the shared deque and a worker's local stack are popped at the end of the list. The limits are
-- positive after `withDefaults`, so the lengths and limits are plain numbers.
use directory_size_exporter.Base.{
  ℕ, ◌+◌, ◌-◌, ◌*◌, ◌/◌, ◌≤◌, ◌≡◌, ◌⊎◌, inl, inr, refl, ap, ◌∙◌, Bool, true, false, Option, none,
  some, List, [], ◌∷◌, ◌++◌, if◌then◌else◌, leb, ltb, length, length-append, take, drop,
  take-append-drop, length-take, length-drop, arith, Bool-cases,
}
use mathlib.Core.List.{append_assoc}

pub record Pool (R : Type 0) : Type 0 where
  pub deque : List R
  pub limit : ℕ
  pub share_over : ℕ
  pub closed : Bool

-- What `next` gives: a directory, the end, or another wait on the condition.
pub data Next (R : Type 0) : Type 0 where
  got : R → Next R
  ended : Next R
  waiting : Next R

module _ {R : Type 0} where
  unfoldable pub new_pool : ℕ → ℕ → Pool R
  new_pool limit share_over = record {
    deque = [];
    limit = limit;
    share_over = share_over;
    closed = false;
  }

  -- `push` with no local stack.
  unfoldable pub push_shared : List R → Pool R → Pool R
  push_shared refs p = record p { deque = p.deque ++ refs }

  -- The donation of the oldest `share` directories, at most as many as there is room for.
  unfoldable pub donate : ℕ → Pool R → List R → Pool R × List R
  donate share p stack =
      let free = p.limit - length p.deque in
      let n = if ltb free share then free else share in
      if ltb 0 free
      then (record p { deque = p.deque ++ take n stack }, drop n stack)
      else (p, stack)

  -- `push` with a local stack.
  unfoldable pub push : List R → Pool R → List R → Pool R × List R
  unfolding donate
  push refs p stack =
      let grown = stack ++ refs in
      if leb (length grown) p.share_over then (p, grown) else donate (length grown / 2) p grown

  -- The last element of a slice, and the slice without it.
  unfoldable pub pop_last : List R → Option (List R × R)
  pop_last [] = none
  pop_last (r ∷ rs) = elim (pop_last rs) [
    | none ↦ some ([], r)
    | some (front, last) ↦ some (r ∷ front, last)
  ]

  -- The part of `next` under the lock: one round of its loop.
  unfoldable pub next_shared : Pool R → Next R × Pool R
  next_shared p = elim (pop_last p.deque) [
    | some (front, last) ↦ (got last, record p { deque = front })
    | none ↦ (if p.closed then ended else waiting, p)
  ]

  unfoldable pub next : Pool R → List R → Next R × (Pool R × List R)
  next p stack = if p.closed then (ended, (p, stack)) else elim (pop_last stack) [
    | some (front, last) ↦ (got last, (p, front))
    | none ↦ let (result, p') = next_shared p in (result, (p', stack))
  ]

  unfoldable pub close : Pool R → Pool R
  close p = record p { closed = true; deque = [] }

  -- What a donation keeps.
  record Donates (share : ℕ) (p : Pool R) (stack : List R) (after : Pool R × List R) : Type 0 where
    whole : after.0.deque ++ after.1 ≡ p.deque ++ stack
    bounded : (length after.0.deque ≤ p.limit) ⊎ (after.0.deque ≡ p.deque)
    kept : length stack ≤ length after.1 + share
    same_state : after.0.closed ≡ p.closed

  taken-Donates :
      (n share : ℕ) (p : Pool R) (stack : List R)
      → n ≤ share
      → n + length p.deque ≤ p.limit
      → Donates share p stack (record p { deque = p.deque ++ take n stack }, drop n stack)
  taken-Donates n share p stack few fits = record {
    whole =
        append_assoc p.deque (take n stack) (drop n stack)
        ∙ ap (◌++◌ p.deque) (take-append-drop n stack);
    bounded = inl (omega (arith, length-append p.deque (take n stack), length-take n stack));
    kept = omega (arith, length-drop n stack);
    same_state = refl;
  }

  donate-Donates :
      (share : ℕ) (p : Pool R) (stack : List R) → Donates share p stack (donate share p stack)
  unfolding donate
  donate-Donates share p stack = elim (Bool-cases (ltb 0 (p.limit - length p.deque))) [
    | inl room ↦ rw room (taken-Donates _ share p stack (ground arith) (ground arith))
    | inr full ↦
        rw full (record { whole = refl; bounded = inr refl; kept = omega arith; same_state = refl })
  ]

  -- `push` to a local stack loses and duplicates nothing, and keeps the order: the shared deque
  -- followed by the stack is what it was, followed by the new directories. The deque passes its limit
  -- only if it did before and stays as it is, and the worker keeps at least half of its stack.
  pub push_conserves :
      (refs : List R) (p : Pool R) (stack : List R)
      → let (p', stack') = push refs p stack in
        (p'.deque ++ stack' ≡ p.deque ++ (stack ++ refs))
        × ((length p'.deque ≤ p.limit) ⊎ (p'.deque ≡ p.deque))
        × (length (stack ++ refs) ≤ 2 * length stack')
        × (p'.closed ≡ p.closed)
  unfolding push
  push_conserves refs p stack =
      let grown = stack ++ refs in
      let given = donate-Donates (length grown / 2) p grown in
      elim (Bool-cases (leb (length grown) p.share_over)) [
        | inl few ↦ rw few (refl, inr refl, omega arith, refl)
        | inr many ↦
            rw many (given.whole, given.bounded, omega (arith, given.kept), given.same_state)
      ]

  pub pop_last-cases :
      (rs : List R)
      → ((pop_last rs ≡ none) × (rs ≡ []))
        ⊎ ((front : List R) × (last : R) × (pop_last rs ≡ some (front, last))
            × (rs ≡ front ++ last ∷ []))
  unfolding pop_last
  pop_last-cases [] = inl (refl, refl)
  pop_last-cases (r ∷ rs) = elim (pop_last-cases rs) [
    | inl (e, z) ↦ inr ([], r, rw (e, pop_last) refl, rw z refl)
    | inr (front, last, e, z) ↦ inr (r ∷ front, last, rw (e, pop_last) refl, ap (◌∷◌ r) z)
  ]

  next_shared-got :
      (p : Pool R) {front : List R} {last : R}
      → pop_last p.deque ≡ some (front, last)
      → next_shared p ≡ (got last, record p { deque = front })
  unfolding next_shared
  next_shared-got p e = rw (e, next_shared) refl

  next_shared-none :
      (p : Pool R)
      → pop_last p.deque ≡ none
      → next_shared p ≡ (if p.closed then ended else waiting, p)
  unfolding next_shared
  next_shared-none p e = rw (e, next_shared) refl

  -- `next` takes from the end, of the worker's own stack first: with a directory, one of the two lost
  -- exactly its last element, which is that directory, the deque only if the stack is empty; without
  -- one nothing changed, and either the pool is closed or there was nothing to take.
  pub next_takes_last :
      (p : Pool R) (stack : List R)
      → let (result, (p', stack')) = next p stack in
        ((r : R) × (result ≡ got r)
          × (p.closed ≡ false)
          × (((stack ≡ stack' ++ r ∷ []) × (p' ≡ p))
              ⊎ ((stack ≡ []) × (stack' ≡ []) × (p.deque ≡ p'.deque ++ r ∷ []))))
        ⊎ ((p' ≡ p)
            × (stack' ≡ stack)
            × (((result ≡ ended) × (p.closed ≡ true))
                ⊎ ((result ≡ waiting) × (stack ≡ []) × (p.deque ≡ []))))
  unfolding next
  next_takes_last p stack = elim (Bool-cases p.closed) [
    | inl over ↦ simp over (inr (refl, refl, inl (refl, refl)))
    | inr open_ ↦ elim (pop_last-cases stack) [
      | inr (front, last, e, z) ↦ simp (open_, e) (inl (last, refl, refl, inl (z, refl)))
      | inl (e, z) ↦ elim (pop_last-cases p.deque) [
        | inr (front, last, e', z') ↦
            simp (open_, e, next_shared-got p e') (inl (last, refl, refl, inr (z, z, z')))
        | inl (e', z') ↦
            simp (open_, e, next_shared-none p e') (inr (refl, refl, inr (refl, z, z')))
      ]
    ]
  ]
