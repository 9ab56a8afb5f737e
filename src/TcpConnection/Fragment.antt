-- ===== src/TcpConnection/Fragment.antt =====
-- A request that arrives in two reads.
pub mod Tests
use my_tiny_rpc.Base.{
  ℕ, suc, ◌+◌, ◌*◌, ◌/◌, ◌<◌, ◌^◌, ◌≡◌, refl, sym, subst, ap, ◌∙◌, Option, [], ◌∷◌, ◌++◌,
  append-nil, length, Bytes, arith,
}
use my_tiny_rpc.Base.Outcome.{done, done-injective}
use my_tiny_rpc.TcpBuffer.Inv.{IsValid, contents}
use my_tiny_rpc.Coder.Word.{net_bytes}
use my_tiny_rpc.Coder.TinyPb.{TinyPbProtocol, packet_length}
use my_tiny_rpc.Coder.TinyPb.Layout.{packet}
use my_tiny_rpc.Coder.TinyPb.Parse.{IsWellFormed}
use my_tiny_rpc.Coder.TinyPb.Search.{HasNoStart}
use my_tiny_rpc.Coder.TinyPb.RoundTrip.{decode-stream, DecodesTo, messages, stream}
use my_tiny_rpc.TcpBuffer.{TcpBuffer}
use my_tiny_rpc.Coder.TinyPb.Fragment.{front_of, decode-front}
use my_tiny_rpc.Rpc.Dispatcher.{ServiceMap, RunTime}
use my_tiny_rpc.TcpConnection.{TcpConnection, Effect}
use my_tiny_rpc.TcpConnection.Idle.{IsIdleServer}
use my_tiny_rpc.TcpConnection.Input.{received, on_read, serve_all}
use my_tiny_rpc.Coder.TinyPb.Encode.{packets}
use my_tiny_rpc.TcpConnection.Serve.{Served, on_read_decodes}

module _ {Addr : Type 0} (local_addr peer_addr : Option Addr) (services : ServiceMap Addr) where
  -- A read on an idle connection that answers nothing.
  pub record AnswersNothing (c : TcpConnection) (e : Effect) : Type 0 where
    pub in_empty : contents e.connection.in_buffer ≡ []
    pub out_same : contents e.connection.out_buffer ≡ contents c.out_buffer
    pub idle : IsIdleServer e.connection

  reads_nothing :
      (c : TcpConnection) (run_time : RunTime) (bytes : Bytes) (fuel : ℕ)
      → IsIdleServer c
      → ((b : TcpBuffer) → IsValid b → contents b ≡ bytes → DecodesTo fuel b [])
      → c.in_buffer.write_idx + length bytes < c.in_buffer.size
      → 3 * c.out_buffer.write_idx / 2 < 2 ^ 31
      → (e : Effect) × (on_read local_addr peer_addr services fuel (received bytes ∷ []) c run_time
          ≡ done e)
        × AnswersNothing c e
  unfolding messages packets serve_all
  reads_nothing c run_time bytes fuel i decodes room out_room =
      let (e, runs, served) =
        on_read_decodes local_addr peer_addr services c run_time [] bytes fuel [] i decodes room tt
          (omega (arith, out_room)) in
      (
        e,
        runs,
        record {
          in_empty = served.read_all;
          out_same = served.answered ∙ append-nil (contents c.out_buffer);
          idle = served.still_idle;
        },
      )

  -- A request that arrives in two reads is lost: the first read of an idle connection brings the
  -- packet's front, with its start code and its length field, the second the rest, and none of the
  -- later bytes is a start code. Then both reads leave the read buffer empty and what waits to be
  -- written as it was, and the connection idle: the request is not answered.
  pub split_request_lost :
      (c : TcpConnection) (e : Effect) (run_time : RunTime) (m : TinyPbProtocol)
      (part later : Bytes) (fuel : ℕ)
      → IsIdleServer c
      → IsWellFormed m
      → packet m ≡ front_of m part ++ later
      → 0 < length later
      → HasNoStart (net_bytes (packet_length m) ++ part)
      → HasNoStart later
      → c.in_buffer.write_idx + length (front_of m part) < c.in_buffer.size
      → 3 * c.out_buffer.write_idx / 2 < 2 ^ 31
      → on_read local_addr peer_addr services
          (suc fuel)
          (received (front_of m part) ∷ [])
          c
          run_time
        ≡ done e
      → e.connection.in_buffer.write_idx + length later < e.connection.in_buffer.size
      → 3 * e.connection.out_buffer.write_idx / 2 < 2 ^ 31
      → AnswersNothing c e
        × (e' : Effect) × (on_read local_addr peer_addr services
              (suc fuel)
              (received later ∷ [])
              e.connection
              e.run_time
            ≡ done e')
        × AnswersNothing c e'
  unfolding stream messages
  split_request_lost c e run_time m part later fuel i w cut more plain plain' room out_room first
        room' out_room' =
      let (a, runs, quiet) =
        reads_nothing c run_time (front_of m part) (suc fuel) i
          (λ b v here. decode-front m part later b fuel w cut more plain v here) room out_room in
      let same : a ≡ e = done-injective (sym runs ∙ first) in
      let quiet' = subst (AnswersNothing c) same quiet in
      let (e', runs', again) =
        reads_nothing e.connection e.run_time later (suc fuel) quiet'.idle
          (λ b v here. decode-stream [] later b (suc fuel) tt plain' v here (omega arith)) room'
          out_room' in
      (
        quiet',
        e',
        runs',
        record {
          in_empty = again.in_empty;
          out_same = again.out_same ∙ quiet'.out_same;
          idle = again.idle;
        },
      )
