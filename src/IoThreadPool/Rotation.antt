-- ===== src/IoThreadPool/Rotation.antt =====
-- The threads take turns.
use native.Mathlib.Nat.{suc-mod, mod_self, mod-lt, mod-eq_of_lt}
use my_tiny_rpc.Base.{
  ℕ, zero, suc, ◌%◌, ◌<◌, ◌≡◌, refl, sym, ap, ◌∙◌, ==_iff, if_intro, some, List, [], ◌∷◌, arith,
  ◌==◌, length, get_elem?, length-replicate,
}
use my_tiny_rpc.Base.Outcome.{done}
use my_tiny_rpc.IoThread.{IoThread}
use my_tiny_rpc.IoThreadPool.{
  IoThreadPool, new_io_thread_pool, wrap_index, get_io_thread, get_io_threads,
}

-- The threads of the connections `k`, `k + 1`, …, of which there are `n`.
abbrev pub turns : ℕ → ℕ → ℕ → List ℕ
turns size zero k = []
turns size (suc n) k = k % size ∷ turns size n (suc k)

-- The pool after `k` threads were taken.
pub record Taken (k : ℕ) (pool : IoThreadPool) : Type 0 where
  pub full : length pool.io_thread_pool ≡ pool.size
  pub next : wrap_index pool.size pool.index ≡ k % pool.size

next_turn : (size k : ℕ) → 0 < size → wrap_index size (some (suc (k % size))) ≡ suc k % size
next_turn size k h =
    if_intro (λ x. x ≡ suc k % size) (suc (k % size) == size) _ _
      (λ last. sym (
        suc-mod k size
        ∙ ap (λ x. x % size) ((==_iff (suc (k % size)) size).0 last)
        ∙ mod_self size))
      (λ other. sym (
        suc-mod k size ∙ mod-eq_of_lt {n = suc (k % size)} {m = size} (ground (arith, mod-lt k h))))

get_elem?-below :
    {A : Type 0} (xs : List A) (i : ℕ) → i < length xs → (a : A) × (get_elem? xs i ≡ some a)
get_elem?-below [] i h = absurd (omega arith)
get_elem?-below (x ∷ xs) zero h = (x, refl)
get_elem?-below (x ∷ xs) (suc i) h = get_elem?-below xs i (omega arith)

pub new_io_thread_pool-Taken :
    (t : IoThread) (size : ℕ) → 0 < size → Taken 0 (new_io_thread_pool t size)
unfolding new_io_thread_pool
new_io_thread_pool-Taken t size h = record { full = length-replicate size t; next = omega arith }

pub get_io_thread-Taken :
    (k : ℕ) (pool : IoThreadPool)
    → 0 < pool.size
    → Taken k pool
    → (pool' : IoThreadPool) × (get_io_thread pool ≡ done (k % pool.size, pool'))
      × Taken (suc k) pool'
      × (pool'.size ≡ pool.size)
unfolding get_io_thread
get_io_thread-Taken k pool h taken =
    let i = k % pool.size in
    let (t, found) = get_elem?-below pool.io_thread_pool i (omega (arith, taken.full)) in
    (
      record pool { index = some (suc i) },
      rw (taken.next, found),
      record { full = taken.full; next = next_turn pool.size k h },
      refl,
    )

get_io_threads-turns :
    (n k : ℕ) (pool : IoThreadPool)
    → 0 < pool.size
    → Taken k pool
    → (pool' : IoThreadPool) × (get_io_threads n pool ≡ done (turns pool.size n k, pool'))
unfolding get_io_threads
get_io_threads-turns zero k pool h taken = (pool, refl)
get_io_threads-turns (suc n) k pool h taken =
    let (pool', first, taken', same) = get_io_thread-Taken k pool h taken in
    let (pool'', later) = get_io_threads-turns n (suc k) pool' (omega arith) taken' in
    (
      pool'',
      rw (first, later) (ap (λ size. done (k % pool.size ∷ turns size n (suc k), pool'')) same),
    )

-- The threads take turns: `n` calls of `getIOThread` on a new pool of at least one thread give the
-- threads 0, 1, … in order, and after the last the first again.
pub get_io_threads_rotate :
    (t : IoThread) (size n : ℕ)
    → 0 < size
    → (pool : IoThreadPool) × (get_io_threads n (new_io_thread_pool t size)
        ≡ done (turns size n 0, pool))
unfolding new_io_thread_pool
get_io_threads_rotate t size n h =
    get_io_threads-turns n 0 (new_io_thread_pool t size) h (new_io_thread_pool-Taken t size h)
