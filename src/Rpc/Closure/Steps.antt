-- ===== src/Rpc/Closure/Steps.antt =====
-- The steps of an interface's closures, and what is counted along them.
use my_tiny_rpc.Base.{
  ℕ, zero, suc, ◌+◌, ◌≤◌, ◌<◌, ◌≡◌, refl, Bool, true, false, Option, none, some, List, [], ◌∷◌,
  ◌++◌, arith, ◌==◌, Bool-cases, inl, inr,
}
use my_tiny_rpc.EventLoop.{update}
use my_tiny_rpc.Rpc.Closure.{
  RpcInterface, CallbackEnd, Event, ran_done, Call, reply, delete_pointer, destroy, run_closure,
  end_closure,
}

-- What may happen to the closures: one is run, or one ends.
pub data ClosureStep : Type 0 where
  run_step : Option CallbackEnd → ℕ → ClosureStep
  end_step : ℕ → ClosureStep

unfoldable pub closure_step : ClosureStep → Call → Call
closure_step (run_step callback id) c = run_closure callback id c
closure_step (end_step id) c = end_closure id c

unfoldable pub closure_steps : List ClosureStep → Call → Call
closure_steps [] c = c
closure_steps (s ∷ rest) c = closure_steps rest (closure_step s c)

abbrev pub closure_of : ClosureStep → ℕ
closure_of (run_step callback id) = id
closure_of (end_step id) = id

-- How often the interface has replied.
abbrev pub is_reply : Event → ℕ
is_reply (ran_done closure) = 1
is_reply _ = 0

abbrev pub replies : List Event → ℕ
replies [] = 0
replies (e ∷ es) = is_reply e + replies es

-- How many of the closures below `n` hold the interface.
abbrev one : Bool → ℕ
one true = 1
one false = 0

abbrev pub holders : ℕ → (ℕ → Bool) → ℕ
holders zero holds = 0
holders (suc n) holds = holders n holds + one (holds n)

pub replies-append : (xs ys : List Event) → replies (xs ++ ys) ≡ replies xs + replies ys
replies-append [] ys = omega arith
replies-append (e ∷ xs) ys = omega (arith, replies-append xs ys)

holders-above :
    (n id : ℕ) (holds : ℕ → Bool) → n ≤ id → holders n (update holds id false) ≡ holders n holds
holders-above zero id holds h = refl
holders-above (suc n) id holds h = ground (arith, holders-above n id holds)

pub holders-release :
    (n id : ℕ) (holds : ℕ → Bool)
    → id < n
    → holds id ≡ true
    → holders n (update holds id false) + 1 ≡ holders n holds
holders-release zero id holds h e = absurd (omega arith)
holders-release (suc n) id holds h e = elim (Bool-cases (id == n)) [
  | inl last ↦ ground (arith, holders-above n id holds)
  | inr other ↦ ground (arith, holders-release n id holds)
]

replies-delete : (p : Option ℕ) → replies (delete_pointer p) ≡ 0
replies-delete none = refl
replies-delete (some p) = refl

quiet-append : (xs ys : List Event) → replies xs ≡ 0 → replies ys ≡ 0 → replies (xs ++ ys) ≡ 0
quiet-append xs ys h k = omega (arith, replies-append xs ys)

pub replies-destroy : (i : RpcInterface) → replies (destroy i) ≡ 0
unfolding destroy
replies-destroy i =
    quiet-append _ _
      (quiet-append _ _ (quiet-append _ _ (replies-delete i.req_base) (replies-delete i.rsp_base))
        (replies-delete i.done_closure))
      (replies-delete i.controller)

pub replies-reply : (o : Option ℕ) (d : ℕ) → o ≡ some d → replies (reply o) ≡ 1
replies-reply none d e = absurd (cc e)
replies-reply (some p) d e = refl
