-- ===== src/Coder/TinyPb/Search.antt =====
-- The search for a start code, over bytes that are none.
use my_tiny_rpc.Base.{
  ℕ, suc, ◌+◌, ◌≡◌, refl, sym, ap, ap₂, ◌∙◌, ◌≢◌, [], ◌∷◌, ◌++◌, some, arith, length, drop,
  get_elem?, get_elem?-drop, All,
}
use my_tiny_rpc.Base.Outcome.{Outcome, done}
use my_tiny_rpc.Coder.TinyPb.{Bytes, pb_start, Scan, byte_at, scan_at, scan}
use my_tiny_rpc.Coder.TinyPb.Parse.{drop_part}

-- No byte is a start code.
abbrev pub HasNoStart : Bytes → Type 0
HasNoStart = All (λ c. c ≢ pb_start)

pub byte_at_front : (tmp rest : Bytes) (i c : ℕ) → drop i tmp ≡ c ∷ rest → byte_at tmp i ≡ done c
unfolding byte_at
byte_at_front tmp rest i c here = rw (first, byte_at)
  where
    first : get_elem? tmp i ≡ some c
    first =
        ap (get_elem? tmp) (omega arith)
        ∙ sym (get_elem?-drop i 0 tmp)
        ∙ ap (λ l. get_elem? l 0) here

pub scan_at_junk :
    (tmp rest : Bytes) (i c : ℕ) (later : Outcome Scan)
    → c ≢ pb_start
    → drop i tmp ≡ c ∷ rest
    → scan_at tmp i later ≡ later
unfolding scan_at
scan_at_junk tmp rest i c later other here = rw (byte_at_front tmp rest i c here) (ground arith)

pub scan-suc :
    (k : ℕ) (tmp : Bytes) (i : ℕ) → scan (suc k) tmp i ≡ scan_at tmp i (scan k tmp (i + 1))
unfolding scan
scan-suc k tmp i = refl

-- The search goes past bytes that are no start code.
pub scan_junk :
    (tmp junk rest : Bytes) (i k : ℕ)
    → HasNoStart junk
    → drop i tmp ≡ junk ++ rest
    → scan (length junk + k) tmp i ≡ scan k tmp (i + length junk)
scan_junk tmp [] rest i k h here = ap₂ (λ a b. scan a tmp b) (omega arith) (omega arith)
scan_junk tmp (c ∷ junk) rest i k h here =
    let e : suc (length junk) + k ≡ suc (length junk + k) = omega arith in
    ap (λ n. scan n tmp i) e
    ∙ scan-suc (length junk + k) tmp i
    ∙ scan_at_junk tmp (junk ++ rest) i c _ h.0 here
    ∙ scan_junk tmp junk rest (i + 1) k h.1 (drop_part tmp (c ∷ []) (junk ++ rest) i here)
    ∙ ap (scan k tmp) (omega arith)
