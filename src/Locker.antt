-- ===== src/Locker.antt =====
-- tinyrpc/common/locker.h: `Mutex`, and `ScopeLocker`, which holds one for a block.
-- A mutex is the thread that owns it, or none. To unlock a mutex that the thread does not own is
-- undefined behaviour; a thread that locks its own mutex again waits for ever, which is `stuck`.
-- Here a lock that another thread owns is awaited, and then taken.
pub mod Scope
pub mod Tests
use my_tiny_rpc.Base.{ℕ, Bool, true, false, Option, none, some, List, [], ◌∷◌, ◌==◌, if◌then◌else◌}
use my_tiny_rpc.Base.Outcome.{Outcome, done, fault, stuck, ◌>>=◌}

abbrev pub Mutex : Type 0
Mutex = Option ℕ

-- `Mutex::lock`, when the mutex is free or the thread's own.
unfoldable pub lock_mutex : ℕ → Mutex → Outcome Mutex
lock_mutex thread none = done (some thread)
lock_mutex thread (some owner) = if owner == thread then stuck else done (some thread)

unfoldable pub unlock_mutex : ℕ → Mutex → Outcome Mutex
unlock_mutex thread none = fault
unlock_mutex thread (some owner) = if owner == thread then done none else fault

-- `m_is_lock`, and the mutex that the locker refers to.
pub record ScopeLocker : Type 0 where
  pub is_lock : Bool
  pub mutex : Mutex

unfoldable pub new_scope_locker : ℕ → Mutex → Outcome ScopeLocker
new_scope_locker thread mutex =
    lock_mutex thread mutex >>= λ m. done (record { is_lock = true; mutex = m })

-- `lock` and `unlock` look at `m_is_lock`, but do not set it.
unfoldable pub lock : ℕ → ScopeLocker → Outcome ScopeLocker
lock thread l =
    if l.is_lock then done l else (lock_mutex thread l.mutex >>= λ m. done (record l { mutex = m }))

unfoldable pub unlock : ℕ → ScopeLocker → Outcome ScopeLocker
unlock thread l =
    if l.is_lock
    then (unlock_mutex thread l.mutex >>= λ m. done (record l { mutex = m }))
    else done l

-- The destructor; what is left is the mutex.
unfoldable pub end_scope : ℕ → ScopeLocker → Outcome Mutex
end_scope thread l = unlock_mutex thread l.mutex

-- What a block calls on its locker.
pub data LockerCall : Type 0 where
  call_lock : LockerCall
  call_unlock : LockerCall

unfoldable pub locker_call : LockerCall → ℕ → ScopeLocker → Outcome ScopeLocker
locker_call call_lock thread l = lock thread l
locker_call call_unlock thread l = unlock thread l

unfoldable pub locker_calls : List LockerCall → ℕ → ScopeLocker → Outcome ScopeLocker
locker_calls [] thread l = done l
locker_calls (c ∷ rest) thread l = locker_call c thread l >>= λ l'. locker_calls rest thread l'

-- A block with a locker, from its declaration to its end.
unfoldable pub run_scope : List LockerCall → ℕ → Mutex → Outcome Mutex
run_scope calls thread mutex =
    new_scope_locker thread mutex >>= λ l. locker_calls calls thread l >>= λ l'. end_scope thread l'
