-- ===== src/Rpc/Dispatcher/Registry.antt =====
-- The dispatcher's services as an abstract map: what requests can tell of it, and in which order
-- services may be registered.
use my_tiny_rpc.Base.{
  true-ne-false, ◌⊎◌, ◌≡◌, ◌≢◌, inl, inr, refl, sym, ap, ◌∙◌, Bytes, Bool, true, false, Option,
  some, Bool-cases, Option-cases, if◌then◌else◌, bytes_eq, bytes_eq_iff,
}
use mathlib.Core.Quot
use mathlib.Core.Quot.{Quot, Quot-set}
use my_tiny_rpc.Rpc.Dispatcher.{
  Service, ServiceMap, find_service, put_service, register_service, parse_service_full_name,
  Dispatched, dispatch, dispatch_found,
}
use my_tiny_rpc.Rpc.Dispatcher.Names.{find_service-put_service}

module _ {Addr : Type 0} where
  -- Two maps in which every name has the same service.
  abbrev pub SameServices : ServiceMap Addr → ServiceMap Addr → Type 1
  SameServices a b = (name : Bytes) → find_service a name ≡ find_service b name

  register-SameServices :
      (s : Service Addr) (a b : ServiceMap Addr)
      → SameServices a b
      → SameServices (register_service a s) (register_service b s)
  unfolding register_service
  register-SameServices s a b same name =
      find_service-put_service a s.full_name name s
      ∙ ap (λ o. if bytes_eq s.full_name name then some s else o) (same name)
      ∙ sym (find_service-put_service b s.full_name name s)

  dispatch-SameServices :
      (local_addr peer_addr : Option Addr) (d : Dispatched) (a b : ServiceMap Addr)
      → SameServices a b
      → dispatch local_addr peer_addr a d ≡ dispatch local_addr peer_addr b d
  unfolding dispatch
  dispatch-SameServices local_addr peer_addr d a b same =
      elim (Option-cases (parse_service_full_name d.request.method_name)) [
        | inl e ↦ rw e refl
        | inr ((name, method), e) ↦
            rw e (ap (λ o. dispatch_found local_addr peer_addr o method d) (same name))
      ]

-- A map of services, whatever the order of its entries.
abbrev pub Registry : Type 0 → Type 1
Registry Addr = Quot (SameServices {Addr = Addr})

Dispatched-set : IsSet Dispatched
Dispatched-set = hlevel

module _ {Addr : Type 0} where
  pub register : Service Addr → Registry Addr → Registry Addr
  register s =
      Quot.lift Quot-set (λ services. Quot.mk (register_service services s))
        (λ a b same. Quot.sound (register-SameServices s a b same))

  pub serve : Option Addr → Option Addr → Dispatched → Registry Addr → Dispatched
  serve local_addr peer_addr d =
      Quot.lift Dispatched-set (λ services. dispatch local_addr peer_addr services d)
        (dispatch-SameServices local_addr peer_addr d)

  if_swap :
      (a b o : Option (Service Addr)) (c d : Bool)
      → ¬ ((c ≡ true) × (d ≡ true))
      → (if c then a else if d then b else o) ≡ (if d then b else if c then a else o)
  if_swap a b o true true apart = absurd (apart (refl, refl))
  if_swap a b o true false apart = refl
  if_swap a b o false true apart = refl
  if_swap a b o false false apart = refl

  if_again :
      (a b o : Option (Service Addr)) (c : Bool)
      → (if c then a else if c then b else o) ≡ (if c then a else o)
  if_again a b o true = refl
  if_again a b o false = refl

  put-commutes :
      (services : ServiceMap Addr) (s t : Service Addr)
      → s.full_name ≢ t.full_name
      → SameServices
          (register_service (register_service services s) t)
          (register_service (register_service services t) s)
  unfolding register_service
  put-commutes services s t apart name =
      find_service-put_service (put_service services s.full_name s) t.full_name name t
      ∙ ap (λ o. if bytes_eq t.full_name name then some t else o)
          (find_service-put_service services s.full_name name s)
      ∙ if_swap _ _ _ (bytes_eq t.full_name name) (bytes_eq s.full_name name) (λ (of_t, of_s).
        apart
          ((bytes_eq_iff s.full_name name).0 of_s ∙ sym ((bytes_eq_iff t.full_name name).0 of_t)))
      ∙ sym (
          ap (λ o. if bytes_eq s.full_name name then some s else o)
            (find_service-put_service services t.full_name name t))
      ∙ sym (find_service-put_service (put_service services t.full_name t) s.full_name name s)

  put-shadows :
      (services : ServiceMap Addr) (s t : Service Addr)
      → s.full_name ≡ t.full_name
      → SameServices
          (register_service (register_service services s) t)
          (register_service services t)
  unfolding register_service
  put-shadows services s t same name =
      find_service-put_service (put_service services s.full_name s) t.full_name name t
      ∙ ap (λ o. if bytes_eq t.full_name name then some t else o)
          (find_service-put_service services s.full_name name s
            ∙ ap (λ key. if bytes_eq key name then some s else find_service services name) same)
      ∙ if_again _ _ _ (bytes_eq t.full_name name)
      ∙ sym (find_service-put_service services t.full_name name t)

  register_comm :
      (s t : Service Addr)
      → s.full_name ≢ t.full_name
      → (r : Registry Addr) → register t (register s r) ≡ register s (register t r)
  unfolding register
  register_comm s t apart =
      Quot.ind (λ r. Quot-set _ _) (λ services. Quot.sound (put-commutes services s t apart))

  register_shadows :
      (s t : Service Addr)
      → s.full_name ≡ t.full_name
      → (r : Registry Addr) → register t (register s r) ≡ register t r
  unfolding register
  register_shadows s t same =
      Quot.ind (λ r. Quot-set _ _) (λ services. Quot.sound (put-shadows services s t same))

  -- Two registrations, as an abstract map sees them: they commute, or the second shadows the first.
  register_twice :
      (s t : Service Addr) (r : Registry Addr)
      → (register t (register s r) ≡ register s (register t r))
        ⊎ ((s.full_name ≡ t.full_name) × (register t (register s r) ≡ register t r))
  register_twice s t r = elim (Bool-cases (bytes_eq s.full_name t.full_name)) [
    | inl e ↦
        let same = (bytes_eq_iff s.full_name t.full_name).0 e in
        inr (same, register_shadows s t same r)
    | inr e ↦ inl (
        register_comm s t
          (λ same. true-ne-false (sym ((bytes_eq_iff s.full_name t.full_name).1 same) ∙ e)) r)
  ]

  -- Services may be registered in any order: two of them, one after the other or the other way
  -- round, give every request the same outcome, unless they have the same name; then the request
  -- cannot tell that the first was ever registered.
  pub dispatch_any_order :
      (services : ServiceMap Addr) (s t : Service Addr) (local_addr peer_addr : Option Addr)
      (d : Dispatched)
      → (dispatch local_addr peer_addr (register_service (register_service services s) t) d
          ≡ dispatch local_addr peer_addr (register_service (register_service services t) s) d)
        ⊎ ((s.full_name ≡ t.full_name)
            × (dispatch local_addr peer_addr (register_service (register_service services s) t) d
                ≡ dispatch local_addr peer_addr (register_service services t) d))
  unfolding register serve
  dispatch_any_order services s t local_addr peer_addr d =
      elim (register_twice s t (Quot.mk services)) [
        | inl e ↦ inl (ap (serve local_addr peer_addr d) e)
        | inr (same, e) ↦ inr (same, ap (serve local_addr peer_addr d) e)
      ]
