-- ===== src/IoThreadPool.antt =====
-- tinyrpc/net/io_thread_pool.{h,cc}: the I/O threads, handed out one after another.
-- The threads are named by their index in the vector; each is an `IoThread`.
pub mod Rotation
pub mod Tests
use my_tiny_rpc.Base.{
  ℕ, zero, suc, ◌+◌, Bool, true, false, Option, none, some, List, [], ◌∷◌, ◌==◌, if◌then◌else◌, map,
  replicate, get_elem?,
}
use my_tiny_rpc.Base.Outcome.{Outcome, done, fault, ◌>>=◌}
use my_tiny_rpc.IoThread.{IoThread, start_from}

-- `index` is `none` where `m_index` is -1.
pub record IoThreadPool : Type 0 where
  pub size : ℕ
  pub io_thread_pool : List IoThread
  pub index : Option ℕ

-- The constructor; `created` is a thread as the constructor of `IOThread` leaves it.
unfoldable pub new_io_thread_pool : IoThread → ℕ → IoThreadPool
new_io_thread_pool created size = record {
  size = size;
  io_thread_pool = replicate size created;
  index = none;
}

abbrev pub started : IoThread → Option IoThread → IoThread
started t none = t
started t (some t') = t'

-- `start`
unfoldable pub start_pool : IoThreadPool → IoThreadPool
start_pool pool = record pool {
  io_thread_pool = map (λ t. started t (start_from t.is_created t)) pool.io_thread_pool;
}

-- The index that the next thread is taken from.
abbrev pub wrap_index : ℕ → Option ℕ → ℕ
wrap_index size none = 0
wrap_index size (some i) = if i == size then 0 else i

-- `m_io_thread_pool[m_index++]`
abbrev pub thread_at : Option IoThread → ℕ → Outcome ℕ
thread_at none i = fault
thread_at (some t) i = done i

-- `getIOThread`: the thread's index, and the pool.
unfoldable pub get_io_thread : IoThreadPool → Outcome (ℕ × IoThreadPool)
get_io_thread pool =
    let i = wrap_index pool.size pool.index in
    thread_at (get_elem? pool.io_thread_pool i) i >>= λ i.
    done (i, record pool { index = some (suc i) })

-- `n` calls of `getIOThread`.
unfoldable pub get_io_threads : ℕ → IoThreadPool → Outcome (List ℕ × IoThreadPool)
get_io_threads zero pool = done ([], pool)
get_io_threads (suc n) pool = get_io_thread pool >>= λ (i, pool').
    get_io_threads n pool' >>= λ (rest, pool''). done (i ∷ rest, pool'')
