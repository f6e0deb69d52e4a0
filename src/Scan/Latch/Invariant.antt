-- ===== src/Scan/Latch/Invariant.antt =====
-- The pending counter of a target is the number of its directories that are queued or in flight.
use directory_size_exporter.Base.{
  ℕ, ◌+◌, ◌%◌, ◌^◌, ◌≡◌, refl, ap, Bool, true, false, some, List, [], ◌∷◌, ◌++◌, if◌then◌else◌, All,
  length, nat_beq, arith, inl, inr,
}
use directory_size_exporter.Base.Family.{sum_below, sum_below-change, sum_below-zero}
use directory_size_exporter.Scan.Target.{add_pending, complete_dir, abandon}
use directory_size_exporter.Scan.Pool.{
  Pool, push_shared, push, push_conserves, pop_last, pop_last-cases, close,
}
use directory_size_exporter.Scan.Latch.{
  WorkRef, Worker, looking, holding, found, publishing, finishing, gone, Shared, owned, Move,
  pop_local, pop_shared, end, discard, read, reserve, publish, complete, quit, Launcher, ready,
  reserved, System, Step, work, launch, enqueue, give_up, shut, IsStart, Reach, start, later,
}

pub owned-append : (t : ℕ) (xs ys : List WorkRef) → owned t (xs ++ ys) ≡ owned t xs + owned t ys
unfolding owned
owned-append t [] ys = omega arith
owned-append t (x ∷ xs) ys = omega (arith, owned-append t xs ys)

owned-pop_last :
    (t : ℕ) (rs rest : List WorkRef) (r : WorkRef)
    → pop_last rs ≡ some (rest, r)
    → owned t rs ≡ owned t rest + (if nat_beq r.owner t then 1 else 0)
unfolding owned
owned-pop_last t rs rest r h = elim (pop_last-cases rs) [
  | inl (e, z) ↦ absurd (ground arith)
  | inr (front, last, e, z) ↦ ground (arith, ap (owned t) z, owned-append t front (last ∷ []))
]

owned_family :
    (t o : ℕ) (cs : List WorkRef)
    → All (λ (c : WorkRef). c.owner ≡ o) cs
    → owned t cs ≡ (if nat_beq o t then length cs else 0)
unfolding owned
owned_family t o [] h = ground arith
owned_family t o (c ∷ cs) h = ground (arith, owned_family t o cs h.1, h.0)

owned-push :
    (t : ℕ) (cs : List WorkRef) (p : Pool WorkRef) (stack : List WorkRef)
    → owned t (push cs p stack).0.deque + owned t (push cs p stack).1
      ≡ owned t p.deque + owned t stack + owned t cs
owned-push t cs p stack =
    let (p', stack') = push cs p stack in
    omega (
      arith,
      ap (owned t) (push_conserves cs p stack).0,
      owned-append t p'.deque stack',
      owned-append t p.deque (stack ++ cs),
      owned-append t stack cs,
    )

-- The directories of target `t` that a worker answers for: on its stack, in its hand, and, once they
-- are reserved, the children that it has not pushed yet.
unfoldable pub out : ℕ → Worker → ℕ
out t (looking stack) = owned t stack
out t (holding r stack) = owned t (r ∷ stack)
out t (found r children stack) = owned t (r ∷ stack)
out t (publishing r children stack) = owned t (r ∷ stack) + owned t children
out t (finishing r stack) = owned t (r ∷ stack)
out t gone = 0

abbrev pub launching : ℕ → Launcher → ℕ
launching t ready = 0
launching t (reserved r) = if nat_beq r.owner t then 1 else 0

-- The children of a directory belong to its target.
abbrev pub IsFamily : Worker → Type 0
IsFamily (found r children stack) = All (λ (c : WorkRef). c.owner ≡ r.owner) children
IsFamily _ = Unit

Move-IsFamily : {m m' : Shared} {p p' : Worker} → Move m p m' p' → IsFamily p'
Move-IsFamily (pop_local e) = tt
Move-IsFamily (read children h) = h
Move-IsFamily _ = tt

-- A step trades what is pending against what is held and lost, modulo 2 ^ 64.
abbrev Trades : ℕ → Shared → Worker → Shared → Worker → Type 0
Trades t m p m' p' =
    ((m'.targets t).pending + (owned t m.pool.deque + out t p + m.lost t)) % 2 ^ 64
    ≡ ((m.targets t).pending + (owned t m'.pool.deque + out t p' + m'.lost t)) % 2 ^ 64

Move-Trades :
    (t : ℕ) {m m' : Shared} {p p' : Worker} → Move m p m' p' → IsFamily p → Trades t m p m' p'
unfolding out owned add_pending complete_dir
Move-Trades t (pop_local {stack} {rest} {r} e) h = omega (arith, owned-pop_last t stack rest r e)
Move-Trades t {m} (pop_shared {rest} {r} e) h =
    omega (arith, owned-pop_last t m.pool.deque rest r e)
Move-Trades t (end e) h = omega arith
Move-Trades t discard h = refl
Move-Trades t (read children fam) h = refl
Move-Trades t (reserve {r} {children}) h = ground (arith, owned_family t r.owner children h)
Move-Trades t {m} (publish {r} {children} {stack}) h =
    omega (arith, owned-push t children m.pool stack)
Move-Trades t (complete {r}) h = ground arith
Move-Trades t (quit {r}) h = ground arith

-- The directories of target `t` that are queued or in flight, or have been lost.
unfoldable pub outstanding : ℕ → ℕ → System → ℕ
outstanding n t s =
    owned t s.shared.pool.deque
    + sum_below (out t) n s.workers
    + launching t s.launcher
    + s.shared.lost t

pub record Inv (n : ℕ) (s : System) : Type 0 where
  pub counted : (t : ℕ) → (s.shared.targets t).pending % 2 ^ 64 ≡ outstanding n t s % 2 ^ 64
  pub family : (i : ℕ) → IsFamily (s.workers i)

Step-counted :
    {n : ℕ} {s s' : System} (t : ℕ)
    → Step n s s'
    → ((i : ℕ) → IsFamily (s.workers i))
    → (s.shared.targets t).pending % 2 ^ 64 ≡ outstanding n t s % 2 ^ 64
    → (s'.shared.targets t).pending % 2 ^ 64 ≡ outstanding n t s' % 2 ^ 64
unfolding outstanding add_pending push_shared abandon close owned
Step-counted {n} {s} t (work i {m} {p} lt mv) fam h =
    omega (arith, Move-Trades t mv (fam i), sum_below-change (out t) n i p s.workers lt)
Step-counted t (launch r e) fam h = ground arith
Step-counted {s} t (enqueue r e) fam h = ground (arith, owned-append t s.shared.pool.deque (r ∷ []))
Step-counted t (give_up o) fam h = ground arith
Step-counted t shut fam h = omega arith

Step-IsFamily :
    {n : ℕ} {s s' : System}
    → Step n s s'
    → ((i : ℕ) → IsFamily (s.workers i))
    → (j : ℕ) → IsFamily (s'.workers j)
Step-IsFamily {s} (work i {m} {p} lt mv) fam j = moved (nat_beq i j) (Move-IsFamily mv) (fam j)
  where
    moved :
        (b : Bool) → IsFamily p → IsFamily (s.workers j) → IsFamily (if b then p else s.workers j)
    moved true new old = new
    moved false new old = old
Step-IsFamily (launch r e) fam j = fam j
Step-IsFamily (enqueue r e) fam j = fam j
Step-IsFamily (give_up o) fam j = fam j
Step-IsFamily shut fam j = fam j

sum_below-idle :
    (t n : ℕ) (workers : ℕ → Worker)
    → ((i : ℕ) → workers i ≡ looking [])
    → sum_below (out t) n workers ≡ 0
unfolding out owned
sum_below-idle t n workers h = sum_below-zero (out t) n workers (λ i. rw h (nothing t))
  where
    nothing : (t : ℕ) → out t (looking []) ≡ 0
    nothing t = refl

Inv-start : {n : ℕ} {s : System} → IsStart s → Inv n s
unfolding outstanding owned
Inv-start {n} {s} h = record {
  counted = λ t.
      rw (h.empty, h.at_rest, h.none_lost, h.none_pending, sum_below-idle t n s.workers h.idle)
        refl;
  family = λ i. rw h.idle tt;
}

pub Reach-Inv : {n : ℕ} {s : System} → Reach n s → Inv n s
Reach-Inv (start h) = Inv-start h
Reach-Inv (later r st) =
    let inv = Reach-Inv r in
    record {
      counted = λ t. Step-counted t st inv.family (inv.counted t);
      family = Step-IsFamily st inv.family;
    }
