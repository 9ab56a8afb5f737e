-- ===== src/MsgUtil/Counts.antt =====
-- The ids of a thread count up by one.
use my_tiny_rpc.Base.{
  ℕ, zero, suc, ◌+◌, ◌-◌, ◌*◌, ◌≤◌, ◌<◌, ◌≡◌, ◌≢◌, refl, sym, ap, ◌∙◌, Bytes, Bool, false, ◌||◌,
  Option, some, [], ◌∷◌, ◌++◌, ◌==◌, if◌then◌else◌, length, get_elem?, replicate, arith, is_empty,
  bytes_eq, length-append, length-replicate, take-append, ==_iff, Bool-cases, inl, inr,
}
use my_tiny_rpc.Base.Outcome.{done, ◌>>=◌}
use my_tiny_rpc.MsgUtil.{
  skip_nine, digit_up, MsgIds, digit_0, digit_9, last_not_nine, count_up, next_msg_id, gen_msg_id,
}

-- The number that decimal digits stand for, behind those that come to `acc`.
abbrev pub value : ℕ → Bytes → ℕ
value acc [] = acc
value acc (c ∷ s) = value (acc * 10 + (c - digit_0)) s

value-append : (acc : ℕ) (p r : Bytes) → value acc (p ++ r) ≡ value (value acc p) r
value-append acc [] r = refl
value-append acc (c ∷ p) r = value-append (acc * 10 + (c - digit_0)) p r

carry : (a k : ℕ) → value (a + 1) (replicate k digit_0) ≡ value a (replicate k digit_9) + 1
carry a zero = refl
carry a (suc k) =
    ap (λ x. value x (replicate k digit_0)) (omega arith) ∙ carry (a * 10 + (digit_9 - digit_0)) k

get_elem?-front : (p r : Bytes) (d : ℕ) → get_elem? (p ++ d ∷ r) (length p) ≡ some d
get_elem?-front [] r d = refl
get_elem?-front (c ∷ p) r d = get_elem?-front p r d

get_elem?-nines : (k j : ℕ) → j < k → get_elem? (replicate k digit_9) j ≡ some digit_9
get_elem?-nines zero j h = absurd (omega arith)
get_elem?-nines (suc k) zero h = refl
get_elem?-nines (suc k) (suc j) h = get_elem?-nines k j (omega arith)

get_elem?-behind :
    (p : Bytes) (d k j : ℕ)
    → length p < j
    → j < length p + 1 + k
    → get_elem? (p ++ d ∷ replicate k digit_9) j ≡ some digit_9
get_elem?-behind [] d k zero h h' = absurd (omega arith)
get_elem?-behind [] d k (suc j) h h' = get_elem?-nines k j (omega arith)
get_elem?-behind (c ∷ p) d k zero h h' = absurd (omega arith)
get_elem?-behind (c ∷ p) d k (suc j) h h' = get_elem?-behind p d k j (omega arith) (omega arith)

last_not_nine_lem :
    (p : Bytes) (d k n : ℕ)
    → d ≢ digit_9
    → length p < n
    → n ≤ length p + 1 + k
    → last_not_nine (p ++ d ∷ replicate k digit_9) n ≡ done (length p)
unfolding last_not_nine
last_not_nine_lem p d k zero other h h' = absurd (omega arith)
last_not_nine_lem p d k (suc m) other h h' = elim (Bool-cases (m == length p)) [
  | inl here ↦
      let at : m ≡ length p = (==_iff m (length p)).0 here in
      let elem : get_elem? (p ++ d ∷ replicate k digit_9) m ≡ some d =
        ap (get_elem? (p ++ d ∷ replicate k digit_9)) at ∙ get_elem?-front p _ d in
      let apart : (d == digit_9) ≡ false = ground arith in
      ap (λ o. skip_nine o m (last_not_nine (p ++ d ∷ replicate k digit_9) m)) elem
      ∙ rw apart (ap done at)
  | inr later ↦
      let behind : length p < m = ground arith in
      ap (λ o. skip_nine o m (last_not_nine (p ++ d ∷ replicate k digit_9) m))
        (get_elem?-behind p d k m behind (omega arith))
      ∙ last_not_nine_lem p d k m other behind (omega arith)
]

count_up_lem :
    (p : Bytes) (d k : ℕ)
    → count_up (p ++ d ∷ replicate k digit_9) (length p) ≡ done (p ++ suc d ∷ replicate k digit_0)
unfolding count_up
count_up_lem p d k =
    let zeros : length (p ++ d ∷ replicate k digit_9) - length p - 1 ≡ k =
      omega (arith, length-append p (d ∷ replicate k digit_9), length-replicate k digit_9) in
    ap (λ o. digit_up o (p ++ d ∷ replicate k digit_9) (length p)) (get_elem?-front p _ d)
    ∙ rw (take-append p (d ∷ replicate k digit_9) {n = length p} refl, zeros)

if-false : {A : Type 0} {c : Bool} (x y : A) → c ≡ false → (if c then x else y) ≡ y
if-false x y e = ap (λ c. if c then x else y) e

-- A thread's next message id is the next number: where the id ends in nines behind a digit that is
-- none, and is not the largest, `GenMsgID` gives an id of the same length whose number is one more,
-- without a read of random bytes.
pub gen_msg_id_counts :
    (random : Option Bytes) (ids : MsgIds) (p : Bytes) (d k : ℕ)
    → ids.msg_id_no ≡ p ++ d ∷ replicate k digit_9
    → digit_0 ≤ d
    → d < digit_9
    → (is_empty ids.msg_id_no || bytes_eq ids.msg_id_no ids.max_msg_id_no) ≡ false
    → (id : Bytes) × (gen_msg_id random ids ≡ done (record ids { msg_id_no = id }, id))
      × (value 0 id ≡ value 0 ids.msg_id_no + 1)
      × (length id ≡ length ids.msg_id_no)
unfolding gen_msg_id next_msg_id
gen_msg_id_counts random ids p d k shape low high fresh =
    let id = p ++ suc d ∷ replicate k digit_0 in
    let total : length (p ++ d ∷ replicate k digit_9) ≡ length p + 1 + k =
      omega (arith, length-append p (d ∷ replicate k digit_9), length-replicate k digit_9) in
    (
      id,
      if-false _ (next_msg_id ids) fresh
          ∙ ap
              (λ s. last_not_nine s (length s) >>= λ i.
                count_up s i >>= λ id. done (record ids { msg_id_no = id }, id))
              shape
          ∙ rw (
            last_not_nine_lem p d k (length (p ++ d ∷ replicate k digit_9))
                (λ e. absurd (omega arith)) (omega (arith, total)) (omega (arith, total)),
            count_up_lem p d k,
          ),
      value-append 0 p (suc d ∷ replicate k digit_0)
          ∙ ap (λ x. value x (replicate k digit_0)) (omega arith)
          ∙ carry (value 0 p * 10 + (d - digit_0)) k
          ∙ ap (λ x. x + 1)
              (sym (value-append 0 p (d ∷ replicate k digit_9)) ∙ ap (value 0) (sym shape)),
      length-append p (suc d ∷ replicate k digit_0)
          ∙ omega (arith, total, ap length shape, length-replicate k digit_0),
    )
