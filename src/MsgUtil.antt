-- ===== src/MsgUtil.antt =====
-- tinyrpc/common/msg_util.{h,cc}: message ids, a counter of decimal digits for each thread.
-- What is read from /dev/urandom is an argument: the bytes, or none where fewer than 20 come.
pub mod Counts
pub mod Tests
use my_tiny_rpc.Base.{
  ℕ, zero, suc, ◌+◌, ◌-◌, ◌%◌, Bytes, ◌||◌, Option, none, some, [], ◌∷◌, ◌++◌, ◌==◌, if◌then◌else◌,
  length, get_elem?, take, replicate, map, is_empty, bytes_eq,
}
use my_tiny_rpc.Base.Outcome.{Outcome, done, fault, ◌>>=◌}

abbrev pub digit_0 : ℕ
digit_0 = 48

abbrev pub digit_9 : ℕ
digit_9 = 57

-- `g_msg_id_length`
abbrev pub msg_id_length : ℕ
msg_id_length = 20

-- The two thread-local strings.
pub record MsgIds : Type 0 where
  pub msg_id_no : Bytes
  pub max_msg_id_no : Bytes

-- A new start. The nines are put behind those of the starts before.
unfoldable pub start_at : Bytes → MsgIds → MsgIds
start_at random ids = record {
  msg_id_no = map (λ x. x % 10 + digit_0) random;
  max_msg_id_no = ids.max_msg_id_no ++ replicate msg_id_length digit_9;
}

-- One round of the `while` loop, at the digit of index `i`; `below` is what the later rounds find.
abbrev pub skip_nine : Option ℕ → ℕ → Outcome ℕ → Outcome ℕ
skip_nine none i below = fault
skip_nine (some c) i below = if c == digit_9 then below else done i

-- The `while` loop, from the index before `k` down. It reads the string at the index -1 when all
-- are nines.
unfoldable pub last_not_nine : Bytes → ℕ → Outcome ℕ
last_not_nine s zero = fault
last_not_nine s (suc i) = let below = last_not_nine s i in skip_nine (get_elem? s i) i below

-- The digit at `i` goes up by one, and those behind it become zeros.
abbrev pub digit_up : Option ℕ → Bytes → ℕ → Outcome Bytes
digit_up none s i = fault
digit_up (some c) s i = done (take i s ++ suc c ∷ replicate (length s - i - 1) digit_0)

unfoldable pub count_up : Bytes → ℕ → Outcome Bytes
count_up s i = digit_up (get_elem? s i) s i

unfoldable pub next_msg_id : MsgIds → Outcome (MsgIds × Bytes)
next_msg_id ids = last_not_nine ids.msg_id_no (length ids.msg_id_no) >>= λ i.
    count_up ids.msg_id_no i >>= λ id. done (record ids { msg_id_no = id }, id)

-- `GenMsgID`
unfoldable pub gen_msg_id : Option Bytes → MsgIds → Outcome (MsgIds × Bytes)
gen_msg_id random ids =
    if is_empty ids.msg_id_no || bytes_eq ids.msg_id_no ids.max_msg_id_no
    then (elim random [
      | none ↦ done (ids, [])
      | some bytes ↦ done (start_at bytes ids, (start_at bytes ids).msg_id_no)
    ])
    else next_msg_id ids
