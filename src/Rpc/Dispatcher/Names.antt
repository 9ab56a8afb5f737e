-- ===== src/Rpc/Dispatcher/Names.antt =====
-- How a full method name is split, and which service a request reaches by it.
use my_tiny_rpc.Base.{
  ℕ, ◌+◌, ◌-◌, ◌≡◌, ◌↔◌, inl, inr, refl, sym, subst, ap, ap₂, ◌∙◌, Bytes, true, false, Option, none,
  some, [], ◌∷◌, ◌++◌, arith, ◌==◌, ==_iff, Bool-cases, Option-cases, if◌then◌else◌, length, drop,
  take-append, drop-append, take_all, length-append, append_assoc, is_empty, bytes_eq, bytes_eq_iff,
  Lacks, find_first_of-Lacks, find_first_of-parts,
}
use my_tiny_rpc.Rpc.Dispatcher.{
  Service, ServiceMap, find_service, put_service, register_service, parse_service_full_name,
  Dispatched, dispatch, dispatch_to, dispatch_named, dispatch_found,
}

abbrev pub HasNoDot : Bytes → Type 0
HasNoDot = Lacks b'.'

-- A string lacks a character, or is cut at its first occurrence.
pub data Cut (c : ℕ) (s : Bytes) : Type 0 where
  whole : Lacks c s → Cut c s
  parts : (a b : Bytes) → Lacks c a → s ≡ a ++ (c ∷ b) → Cut c s

pub cut : (c : ℕ) (s : Bytes) → Cut c s
cut c [] = whole tt
cut c (d ∷ s) = elim (Bool-cases (d == c)) [
  | inl same ↦ parts [] s tt (ap (λ x. x ∷ s) ((==_iff d c).0 same))
  | inr other ↦ elim (cut c s) [
    | whole l ↦ whole ((λ e. cc (other, (==_iff d c).1 e)), l)
    | parts a b l e ↦ parts (d ∷ a) b ((λ e. cc (other, (==_iff d c).1 e)), l) (ap (◌∷◌ d) e)
  ]
]

not_empty : (a : Bytes) (c : ℕ) (b : Bytes) → is_empty (a ++ (c ∷ b)) ≡ false
not_empty [] c b = refl
not_empty (x ∷ a) c b = refl

pub parse-none : (s : Bytes) → HasNoDot s → parse_service_full_name s ≡ none
unfolding parse_service_full_name
parse-none [] l = refl
parse-none (c ∷ s) l = rw (find_first_of-Lacks b'.' (c ∷ s) l)

pub parse-some :
    (a b : Bytes) → HasNoDot a → parse_service_full_name (a ++ (b'.' ∷ b)) ≡ some (a, b)
unfolding parse_service_full_name
parse-some a b l = rw (
  not_empty a b'.' b,
  find_first_of-parts b'.' a b l,
  take-append a (b'.' ∷ b) {n = length a} refl,
  behind,
  take_all (length (a ++ (b'.' ∷ b)) - length a - 1) b (omega (arith, length-append a (b'.' ∷ b))),
)
  where
    behind : drop (length a + 1) (a ++ (b'.' ∷ b)) ≡ b
    behind =
        ap (drop (length a + 1)) (sym (append_assoc a (b'.' ∷ []) b))
        ∙ drop-append (a ++ (b'.' ∷ [])) b (omega (arith, length-append a (b'.' ∷ [])))

-- A full name is split into a service and a method name just where it is those two with a dot between
-- them, and the service name has none.
pub parse_service_full_name_iff :
    (full s m : Bytes)
    → (parse_service_full_name full ≡ some (s, m)) ↔ ((full ≡ s ++ (b'.' ∷ m)) × HasNoDot s)
parse_service_full_name_iff full s m = (
  λ h. elim (cut b'.' full) [
    | whole l ↦ absurd (cc (h, parse-none full l))
    | parts a b l e ↦
        let q : some (a, b) ≡ some (s, m) =
          sym (parse-some a b l) ∙ sym (ap parse_service_full_name e) ∙ h in
        let same_s : a ≡ s = cc q in
        let same_m : b ≡ m = cc q in
        (e ∙ ap₂ (λ x y. x ++ (b'.' ∷ y)) same_s same_m, subst HasNoDot same_s l)
  ],
  λ h. ap parse_service_full_name h.0 ∙ parse-some s m h.1,
)

module _ {Addr : Type 0} where
  pub find_service-put_service :
      (services : ServiceMap Addr) (name key : Bytes) (s : Service Addr)
      → find_service (put_service services name s) key
        ≡ (if bytes_eq name key then some s else find_service services key)
  unfolding find_service put_service
  find_service-put_service [] name key s = refl
  find_service-put_service ((k, v) ∷ m) name key s = elim (Bool-cases (bytes_eq k name)) [
    | inl same ↦
        rw (same, ← (bytes_eq_iff k name).0 same)
          (elim (Bool-cases (bytes_eq k key)) [ inl e ↦ rw e | inr e ↦ rw e ])
    | inr other ↦
        rw (other, find_service-put_service m name key s)
          (elim (Bool-cases (bytes_eq k key)) [
            | inl e ↦ rw (e, apart k name key other e)
            | inr e ↦ rw e
          ])
  ]
    where
      apart :
          (k name key : Bytes)
          → bytes_eq k name ≡ false
          → bytes_eq k key ≡ true
          → bytes_eq name key ≡ false
      apart k name key other same = elim (Bool-cases (bytes_eq name key)) [
        | inl e ↦ absurd (
            cc (
              other,
              (bytes_eq_iff k name).1
                  ((bytes_eq_iff k key).0 same ∙ sym ((bytes_eq_iff name key).0 e)),
            ))
        | inr e ↦ e
      ]

  -- A service whose name has no dot is reached under that name, with what follows the dot as the
  -- method, and shadows a service registered before it under that name.
  pub dispatch-register :
      (services : ServiceMap Addr) (s : Service Addr) (local_addr peer_addr : Option Addr)
      (method : Bytes) (d : Dispatched)
      → HasNoDot s.full_name
      → d.request.method_name ≡ s.full_name ++ (b'.' ∷ method)
      → dispatch local_addr peer_addr (register_service services s) d
        ≡ dispatch_to local_addr peer_addr s method d
  unfolding dispatch register_service
  dispatch-register services s local_addr peer_addr method d l e =
      let found : find_service (put_service services s.full_name s) s.full_name ≡ some s =
        find_service-put_service services s.full_name s.full_name s
        ∙ rw ((bytes_eq_iff s.full_name s.full_name).1 refl) in
      ap (λ p. dispatch_named local_addr peer_addr (register_service services s) p d)
        (ap parse_service_full_name e ∙ parse-some s.full_name method l)
      ∙ ap (λ o. dispatch_found local_addr peer_addr o method d) found

  -- A service whose name has a dot, as that of every service in a protobuf package has, is reached
  -- by no request: registering it changes nothing.
  pub dispatch-register_dotted :
      (services : ServiceMap Addr) (s : Service Addr) (local_addr peer_addr : Option Addr)
      (d : Dispatched)
      → ¬ HasNoDot s.full_name
      → dispatch local_addr peer_addr (register_service services s) d
        ≡ dispatch local_addr peer_addr services d
  unfolding dispatch register_service
  dispatch-register_dotted services s local_addr peer_addr d dotted =
      elim (Option-cases (parse_service_full_name d.request.method_name)) [
        | inl e ↦ rw e
        | inr ((name, method), e) ↦
            rw e (ap (λ o. dispatch_found local_addr peer_addr o method d) (same name method e))
      ]
    where
      same :
          (name method : Bytes)
          → parse_service_full_name d.request.method_name ≡ some (name, method)
          → find_service (put_service services s.full_name s) name ≡ find_service services name
      same name method e =
          find_service-put_service services s.full_name name s
          ∙ elim (Bool-cases (bytes_eq s.full_name name)) [
            | inl eq ↦ absurd (
                dotted (
                  subst HasNoDot (sym ((bytes_eq_iff s.full_name name).0 eq))
                    ((parse_service_full_name_iff d.request.method_name name method).0 e).1))
            | inr ne ↦ rw ne
          ]
