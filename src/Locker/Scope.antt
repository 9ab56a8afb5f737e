-- ===== src/Locker/Scope.antt =====
-- Which blocks give their mutex back.
use my_tiny_rpc.Base.{
  ℕ, ◌≡◌, refl, Bool, true, false, none, some, List, [], ◌∷◌, ==_iff, if◌then◌else◌,
}
use my_tiny_rpc.Base.Outcome.{Outcome, done, fault, ◌>>=◌}
use my_tiny_rpc.Locker.{
  Mutex, ScopeLocker, lock_mutex, unlock_mutex, new_scope_locker, lock, unlock, end_scope,
  LockerCall, call_lock, call_unlock, locker_call, locker_calls, run_scope,
}

abbrev pub has_unlock : List LockerCall → Bool
has_unlock [] = false
has_unlock (call_lock ∷ rest) = has_unlock rest
has_unlock (call_unlock ∷ rest) = true

-- The rest of a block, and its end.
abbrev to_end : List LockerCall → ℕ → ScopeLocker → Outcome Mutex
to_end calls thread l = locker_calls calls thread l >>= λ l'. end_scope thread l'

abbrev held : ℕ → ScopeLocker
held thread = record { is_lock = true; mutex = some thread }

-- A locker whose mutex was given back still says that it holds it.
abbrev given_back : ScopeLocker
given_back = record { is_lock = true; mutex = none }

after_unlock : (calls : List LockerCall) (thread : ℕ) → to_end calls thread given_back ≡ fault
unfolding locker_calls locker_call lock unlock end_scope unlock_mutex
after_unlock [] thread = refl
after_unlock (call_lock ∷ rest) thread = after_unlock rest thread
after_unlock (call_unlock ∷ rest) thread = refl

before_unlock :
    (calls : List LockerCall) (thread : ℕ)
    → to_end calls thread (held thread) ≡ (if has_unlock calls then fault else done none)
unfolding locker_calls locker_call lock unlock end_scope unlock_mutex
before_unlock [] thread = rw ((==_iff thread thread).1 refl)
before_unlock (call_lock ∷ rest) thread = before_unlock rest thread
before_unlock (call_unlock ∷ rest) thread =
    rw ((==_iff thread thread).1 refl) (after_unlock rest thread)

-- A block gives its mutex back just if it never calls `unlock` on the locker: with such a call,
-- whatever comes before and behind it, the mutex is unlocked twice.
pub run_scope_lem :
    (calls : List LockerCall) (thread : ℕ)
    → run_scope calls thread none ≡ (if has_unlock calls then fault else done none)
unfolding run_scope new_scope_locker lock_mutex
run_scope_lem calls thread = before_unlock calls thread
