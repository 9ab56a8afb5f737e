-- ===== src/MsgUtil/Tests.antt =====
-- Ids of a thread, and the theorem at one.
use my_tiny_rpc.Base.{◌≡◌, refl, none, codes, bytes_eq}
use my_tiny_rpc.Base.Outcome.{done, fault}
use my_tiny_rpc.MsgUtil.{MsgIds, last_not_nine, next_msg_id, count_up, gen_msg_id}

abbrev before_carry : MsgIds
before_carry = record { msg_id_no = codes "12399"; max_msg_id_no = codes "99999" }

carries :
    gen_msg_id none before_carry
    ≡ done (record before_carry { msg_id_no = codes "12400" }, codes "12400")
unfolding gen_msg_id next_msg_id last_not_nine count_up bytes_eq
carries = refl

-- After a second start the largest id has twice the length, and the nines are not noticed.
past_the_end :
    gen_msg_id none (record { msg_id_no = codes "99"; max_msg_id_no = codes "9999" }) ≡ fault
unfolding gen_msg_id next_msg_id last_not_nine bytes_eq
past_the_end = refl
