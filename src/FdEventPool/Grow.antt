-- ===== src/FdEventPool/Grow.antt =====
-- The pool holds each descriptor's own event, and grows without moving or losing one.
use my_tiny_rpc.Base.{
  ℕ, zero, suc, ◌+◌, ◌-◌, ◌*◌, ◌/◌, ◌≤◌, ◌<◌, ◌≡◌, refl, sym, subst, ap, ◌∙◌, some, List, [], ◌∷◌,
  ◌++◌, arith, ltb, if_intro, length, get_elem?, length-append, ◌==◌, ==_iff, Bool-cases, inl, inr,
}
use my_tiny_rpc.Base.Outcome.{done}
use my_tiny_rpc.EventLoop.{update}
use my_tiny_rpc.FdEvent.{FdEvent, new_fd_event}
use my_tiny_rpc.FdEventPool.{
  FdEventPool, push_event, push_events, new_fd_event_pool, event_at, grow, pool_for, get_fd_event,
}

get_elem?-append_left :
    (xs ys : List ℕ) (i : ℕ) → i < length xs → get_elem? (xs ++ ys) i ≡ get_elem? xs i
get_elem?-append_left [] ys i h = absurd (omega arith)
get_elem?-append_left (x ∷ xs) ys zero h = refl
get_elem?-append_left (x ∷ xs) ys (suc i) h = get_elem?-append_left xs ys i (omega arith)

get_elem?-last : (xs : List ℕ) (x i : ℕ) → i ≡ length xs → get_elem? (xs ++ x ∷ []) i ≡ some x
get_elem?-last [] x zero h = refl
get_elem?-last [] x (suc i) h = absurd (omega arith)
get_elem?-last (y ∷ xs) x zero h = absurd (omega arith)
get_elem?-last (y ∷ xs) x (suc i) h = get_elem?-last xs x i (omega arith)

get_elem?-some_lt : (xs : List ℕ) (i x : ℕ) → get_elem? xs i ≡ some x → i < length xs
get_elem?-some_lt [] i x e = absurd (cc e)
get_elem?-some_lt (y ∷ xs) zero x e = omega arith
get_elem?-some_lt (y ∷ xs) (suc i) x e = omega (arith, get_elem?-some_lt xs i x e)

module _ {Callback : Type 0} where
  -- The pointer at the index `i` leads to an event of the descriptor `i`.
  pub record PointsTo (pool : FdEventPool Callback) (i : ℕ) (p : ℕ) : Type 0 where
    pub found : get_elem? pool.fd_event_pool i ≡ some p
    pub is_allocated : p < pool.allocated
    pub own_fd : (pool.heap p).fd ≡ i

  abbrev pub IsIndexed : FdEventPool Callback → Type 0
  IsIndexed pool = (i : ℕ) → i < length pool.fd_event_pool → (p : ℕ) × PointsTo pool i p

  -- No pointer of `pool` has moved in `pool'`, and what they lead to is the same.
  abbrev pub IsKept : FdEventPool Callback → FdEventPool Callback → Type 0
  IsKept pool pool' =
      (i p : ℕ) → PointsTo pool i p → PointsTo pool' i p × (pool'.heap p ≡ pool.heap p)

  IsKept-trans : (a b c : FdEventPool Callback) → IsKept a b → IsKept b c → IsKept a c
  IsKept-trans a b c h k i p at =
      let (at', same) = h i p at in let (at'', same') = k i p at' in (at'', same' ∙ same)

  push_event-IsKept : (pool : FdEventPool Callback) (i : ℕ) → IsKept pool (push_event i pool)
  unfolding push_event
  push_event-IsKept pool i j p at =
      let same : update pool.heap pool.allocated (new_fd_event i) p ≡ pool.heap p =
        ground (arith, at.is_allocated) in
      (
        record {
          found =
              get_elem?-append_left pool.fd_event_pool (pool.allocated ∷ []) j
                (get_elem?-some_lt pool.fd_event_pool j p at.found)
              ∙ at.found;
          is_allocated = omega (arith, at.is_allocated);
          own_fd = ap (λ (e : FdEvent Callback). e.fd) same ∙ at.own_fd;
        },
        same,
      )

  push_event-PointsTo :
      (pool : FdEventPool Callback) (i : ℕ)
      → i ≡ length pool.fd_event_pool
      → PointsTo (push_event i pool) i pool.allocated
  unfolding push_event
  push_event-PointsTo pool i e = record {
    found = get_elem?-last pool.fd_event_pool pool.allocated i e;
    is_allocated = omega arith;
    own_fd = ground arith;
  }

  length-push_event :
      (pool : FdEventPool Callback) (i : ℕ)
      → length (push_event i pool).fd_event_pool ≡ length pool.fd_event_pool + 1
  unfolding push_event
  length-push_event pool i = length-append pool.fd_event_pool (pool.allocated ∷ [])

  push_event-IsIndexed :
      (pool : FdEventPool Callback) (i : ℕ)
      → i ≡ length pool.fd_event_pool
      → IsIndexed pool
      → IsIndexed (push_event i pool)
  push_event-IsIndexed pool i e h j below = elim (Bool-cases (ltb j i)) [
    | inl old ↦ let (p, at) = h j (ground arith) in (p, (push_event-IsKept pool i j p at).0)
    | inr new ↦
        let here : i ≡ j = ground (arith, length-push_event pool i) in
        (
          pool.allocated,
          subst (λ k. PointsTo (push_event i pool) k pool.allocated) here
              (push_event-PointsTo pool i e),
        )
  ]

  -- `n` events more.
  record Grown (n : ℕ) (pool pool' : FdEventPool Callback) : Type 0 where
    length_eq : length pool'.fd_event_pool ≡ length pool.fd_event_pool + n
    indexed : IsIndexed pool'
    kept : IsKept pool pool'

  push_events-Grown :
      (n i : ℕ) (pool : FdEventPool Callback)
      → i ≡ length pool.fd_event_pool
      → IsIndexed pool
      → Grown n pool (push_events n i pool)
  unfolding push_events
  push_events-Grown zero i pool e h = record {
    length_eq = omega arith;
    indexed = h;
    kept = λ j p at. (at, refl);
  }
  push_events-Grown (suc n) i pool e h =
      let rest =
        push_events-Grown n (i + 1) (push_event i pool) (omega (arith, length-push_event pool i))
          (push_event-IsIndexed pool i e h) in
      record {
        length_eq = omega (arith, rest.length_eq, length-push_event pool i);
        indexed = rest.indexed;
        kept = IsKept-trans _ _ _ (push_event-IsKept pool i) rest.kept;
      }

  pub record Inv (pool : FdEventPool Callback) : Type 0 where
    pub length_eq : length pool.fd_event_pool ≡ pool.size
    pub at_least_two : 2 ≤ pool.size
    pub indexed : IsIndexed pool

  size-push_events :
      (n i : ℕ) (pool : FdEventPool Callback) → (push_events n i pool).size ≡ pool.size
  unfolding push_events push_event
  size-push_events zero i pool = refl
  size-push_events (suc n) i pool = size-push_events n (i + 1) (push_event i pool)

  pub new_fd_event_pool-Inv :
      (heap : ℕ → FdEvent Callback) (allocated size : ℕ)
      → 2 ≤ size
      → Inv (new_fd_event_pool heap allocated size)
  unfolding new_fd_event_pool
  new_fd_event_pool-Inv heap allocated size h =
      let start : FdEventPool Callback = record {
        size = size;
        fd_event_pool = [];
        heap = heap;
        allocated = allocated;
      } in
      let grown = push_events-Grown size 0 start refl (λ i below. absurd (omega arith)) in
      record {
        length_eq = omega (arith, grown.length_eq, size-push_events size 0 start);
        at_least_two = omega (arith, size-push_events size 0 start);
        indexed = grown.indexed;
      }

  resize-PointsTo :
      (pool : FdEventPool Callback) (n i p : ℕ)
      → PointsTo pool i p
      → PointsTo (record pool { size = n }) i p
  resize-PointsTo pool n i p at = record {
    found = at.found;
    is_allocated = at.is_allocated;
    own_fd = at.own_fd;
  }

  grow-IsRoomy :
      (pool : FdEventPool Callback) (fd : ℕ)
      → Inv pool
      → pool.size ≤ fd
      → Inv (grow pool fd) × IsKept pool (grow pool fd) × (fd < (grow pool fd).size)
  unfolding grow
  grow-IsRoomy pool fd inv h =
      let grown =
        push_events-Grown (fd * 3 / 2 - pool.size) pool.size pool (sym inv.length_eq) inv.indexed in
      (
        record {
          length_eq = omega (arith, grown.length_eq, inv.length_eq, inv.at_least_two);
          at_least_two = omega (arith, inv.at_least_two);
          indexed =
              λ i below. let (p, at) = grown.indexed i below in (p, resize-PointsTo _ _ i p at);
        },
        (λ i p at. let (at', same) = grown.kept i p at in (resize-PointsTo _ _ i p at', same)),
        omega (arith, inv.at_least_two),
      )

  pool_for-IsRoomy :
      (pool : FdEventPool Callback) (fd : ℕ)
      → Inv pool
      → Inv (pool_for pool fd) × IsKept pool (pool_for pool fd) × (fd < (pool_for pool fd).size)
  unfolding pool_for
  pool_for-IsRoomy pool fd inv =
      if_intro (λ (q : FdEventPool Callback). Inv q × IsKept pool q × (fd < q.size))
        (ltb fd pool.size) _ _ (λ small. (inv, (λ i p at. (at, refl)), ground arith))
        (λ large. grow-IsRoomy pool fd inv (ground arith))

  -- A descriptor's event: a pool of at least two events that is asked for a descriptor gives a
  -- pointer to an event of that descriptor, within the vector, and stays such a pool; no pointer
  -- that it has handed out moves, and no event behind one changes.
  pub get_fd_event-Inv :
      (pool : FdEventPool Callback) (fd : ℕ)
      → Inv pool
      → (p : ℕ) × ((get_fd_event pool fd).1 ≡ done p)
        × PointsTo (get_fd_event pool fd).0 fd p
        × Inv (get_fd_event pool fd).0
        × IsKept pool (get_fd_event pool fd).0
  unfolding get_fd_event
  get_fd_event-Inv pool fd inv =
      let (inv', kept, roomy) = pool_for-IsRoomy pool fd inv in
      let (p, at) = inv'.indexed fd (omega (arith, roomy, inv'.length_eq)) in
      (p, ap event_at at.found, at, inv', kept)

  update-fd :
      (heap : ℕ → FdEvent Callback) (p q : ℕ) (e : FdEvent Callback)
      → e.fd ≡ (heap p).fd
      → (update heap p e q).fd ≡ (heap q).fd
  update-fd heap p q e same =
      if_intro (λ (x : FdEvent Callback). x.fd ≡ (heap q).fd) (q == p) e (heap q)
        (λ here. same ∙ ap (λ r. (heap r).fd) (sym ((==_iff q p).0 here))) (λ other. refl)

  -- An event that changes through its pointer keeps its descriptor.
  pub store-Inv :
      (pool : FdEventPool Callback) (p : ℕ) (e : FdEvent Callback)
      → e.fd ≡ (pool.heap p).fd
      → Inv pool
      → Inv (record pool { heap = update pool.heap p e })
  store-Inv pool p e same inv = record {
    length_eq = inv.length_eq;
    at_least_two = inv.at_least_two;
    indexed = λ i below.
        let (q, at) = inv.indexed i below in
        (
          q,
          record {
            found = at.found;
            is_allocated = at.is_allocated;
            own_fd = update-fd pool.heap p q e same ∙ at.own_fd;
          },
        );
  }
