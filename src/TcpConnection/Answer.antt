-- ===== src/TcpConnection/Answer.antt =====
-- From the bytes that arrive on a client's connection to the callbacks that wait for them.
use my_tiny_rpc.Base.{
  ℕ, ◌+◌, ◌<◌, ◌≡◌, ◌≢◌, refl, sym, ap, ◌∙◌, subst, true-ne-false, if_intro, bytes_eq, bytes_eq_iff,
  All, Option, none, some, List, [], ◌∷◌, ◌++◌, length, Bytes,
}
use my_tiny_rpc.Base.Outcome.{done}
use my_tiny_rpc.TcpBuffer.Inv.{IsValid, contents}
use my_tiny_rpc.Coder.TinyPb.{TinyPbProtocol}
use my_tiny_rpc.Coder.TinyPb.Search.{HasNoStart}
use my_tiny_rpc.Coder.TinyPb.RoundTrip.{stream, IsStream, messages, decode-stream}
use my_tiny_rpc.Rpc.Dispatcher.{ServiceMap, RunTime}
use my_tiny_rpc.TcpConnection.{connected, by_client, TcpConnection, Effect, find_done}
use my_tiny_rpc.TcpConnection.Input.{
  ReadResult, received, execute_client, on_read, add_call, answer_calls,
}
use my_tiny_rpc.TcpConnection.Read.{read_loop_takes, on_read-executes, execute-client}

-- The callback that waits for an id: of several entries the first, though `insert` makes only one.
abbrev pub WaitsFor : List (Bytes × ℕ) → Bytes → ℕ → Type 0
WaitsFor dones msg_id callback =
    (before : List (Bytes × ℕ)) × (after : List (Bytes × ℕ)) × (dones
      ≡ before ++ ((msg_id, callback) ∷ after))
    × All (λ d. d.0 ≢ msg_id) before

-- The calls that messages bring about: each goes, in order, to the callback that waits for its id, or
-- to none, where none waits.
pub data GivenTo (dones : List (Bytes × ℕ))
    : List TinyPbProtocol → List (ℕ × TinyPbProtocol) → Type 0 where
  no_message : GivenTo dones [] []
  is_called :
      (m : TinyPbProtocol) (callback : ℕ) {ms : List TinyPbProtocol}
      {calls : List (ℕ × TinyPbProtocol)}
      → WaitsFor dones m.msg_id callback
      → GivenTo dones ms calls
      → GivenTo dones (m ∷ ms) ((callback, m) ∷ calls)
  is_dropped :
      (m : TinyPbProtocol) {ms : List TinyPbProtocol} {calls : List (ℕ × TinyPbProtocol)}
      → All (λ d. d.0 ≢ m.msg_id) dones
      → GivenTo dones ms calls
      → GivenTo dones (m ∷ ms) calls

-- What the search in the map finds.
abbrev Finds : List (Bytes × ℕ) → Bytes → Option ℕ → Type 0
Finds dones msg_id none = All (λ d. d.0 ≢ msg_id) dones
Finds dones msg_id (some callback) = WaitsFor dones msg_id callback

later-Finds :
    (key : Bytes) (callback : ℕ) (dones : List (Bytes × ℕ)) (msg_id : Bytes) (found : Option ℕ)
    → key ≢ msg_id
    → Finds dones msg_id found
    → Finds ((key, callback) ∷ dones) msg_id found
later-Finds key callback dones msg_id none apart f = (apart, f)
later-Finds key callback dones msg_id (some k) apart (before, after, e, none_before) =
    ((key, callback) ∷ before, after, ap (λ l. (key, callback) ∷ l) e, (apart, none_before))

find_done-Finds :
    (dones : List (Bytes × ℕ)) (msg_id : Bytes) → Finds dones msg_id (find_done dones msg_id)
unfolding find_done
find_done-Finds [] msg_id = tt
find_done-Finds ((key, callback) ∷ dones) msg_id =
    if_intro (Finds ((key, callback) ∷ dones) msg_id) (bytes_eq key msg_id) (some callback)
      (find_done dones msg_id)
      (λ same.
        let is_id : key ≡ msg_id = (bytes_eq_iff key msg_id).0 same in
        ([], dones, ap (λ k. (k, callback) ∷ dones) is_id, tt))
      (λ other.
        later-Finds key callback dones msg_id (find_done dones msg_id)
          (λ e. true-ne-false (sym ((bytes_eq_iff key msg_id).1 e) ∙ other))
          (find_done-Finds dones msg_id))

add_call-GivenTo :
    (dones : List (Bytes × ℕ)) (m : TinyPbProtocol) (ms : List TinyPbProtocol)
    (calls : List (ℕ × TinyPbProtocol)) (found : Option ℕ)
    → Finds dones m.msg_id found
    → GivenTo dones ms calls
    → GivenTo dones (m ∷ ms) (add_call found m calls)
add_call-GivenTo dones m ms calls none f a = is_dropped m f a
add_call-GivenTo dones m ms calls (some callback) f a = is_called m callback f a

answer_calls-GivenTo :
    (dones : List (Bytes × ℕ)) (ms : List TinyPbProtocol) → GivenTo dones ms (answer_calls dones ms)
unfolding answer_calls
answer_calls-GivenTo dones [] = no_message
answer_calls-GivenTo dones (m ∷ ms) =
    add_call-GivenTo dones m ms (answer_calls dones ms) (find_done dones m.msg_id)
      (find_done-Finds dones m.msg_id) (answer_calls-GivenTo dones ms)

module _ {Addr : Type 0} (local_addr peer_addr : Option Addr) (services : ServiceMap Addr) where
  pub on_read_calls :
      (c : TcpConnection) (run_time : RunTime) (frames : List (Bytes × TinyPbProtocol))
      (tail : Bytes) (fuel : ℕ) (reads : List ReadResult)
      → c.state ≡ connected
      → c.connection_type ≡ by_client
      → IsValid c.in_buffer
      → contents c.in_buffer ≡ []
      → IsStream frames
      → HasNoStart tail
      → c.in_buffer.write_idx + length (stream frames tail) < c.in_buffer.size
      → length frames < fuel
      → (e : Effect) × (on_read local_addr peer_addr services fuel
            (received (stream frames tail) ∷ reads)
            c
            run_time
          ≡ done e)
        × (e.calls ≡ answer_calls c.read_dones (messages frames))
        × (contents e.connection.in_buffer ≡ [])
        × (e.connection.read_dones ≡ c.read_dones)
  unfolding execute_client
  on_read_calls c run_time frames tail fuel reads is_connected is_client v empty h ht room enough =
      let (b', reading, v', grew) = read_loop_takes v (stream frames tail) reads room in
      let here : contents b' ≡ stream frames tail =
        grew ∙ ap (λ l. l ++ stream frames tail) empty in
      let (in', decodes, w, gone) = decode-stream frames tail b' fuel h ht v' here enough in
      (
        record {
          connection = record c { in_buffer = in' };
          run_time = run_time;
          calls = answer_calls c.read_dones (messages frames);
        },
        on_read-executes local_addr peer_addr services fuel run_time c _ reading is_connected
            ∙ execute-client local_addr peer_addr services fuel run_time
                (record c { in_buffer = b' }) is_client
            ∙ rw decodes refl,
        refl,
        gone,
        refl,
      )

  -- On an idle connection of a client, when a stream of packets arrives whole and with room in the
  -- buffer, each message of it is given, in order, to the callback that waits for its id, and to none
  -- where none waits; the stream is used up, and the callbacks go on waiting.
  pub on_read_answers :
      (c : TcpConnection) (run_time : RunTime) (frames : List (Bytes × TinyPbProtocol))
      (tail : Bytes) (fuel : ℕ) (reads : List ReadResult)
      → c.state ≡ connected
      → c.connection_type ≡ by_client
      → IsValid c.in_buffer
      → contents c.in_buffer ≡ []
      → IsStream frames
      → HasNoStart tail
      → c.in_buffer.write_idx + length (stream frames tail) < c.in_buffer.size
      → length frames < fuel
      → (e : Effect) × (on_read local_addr peer_addr services fuel
            (received (stream frames tail) ∷ reads)
            c
            run_time
          ≡ done e)
        × GivenTo c.read_dones (messages frames) e.calls
        × (contents e.connection.in_buffer ≡ [])
        × (e.connection.read_dones ≡ c.read_dones)
  on_read_answers c run_time frames tail fuel reads is_connected is_client v empty h ht room
        enough =
      let (e, ends, calls, gone, same) =
        on_read_calls c run_time frames tail fuel reads is_connected is_client v empty h ht room
          enough in
      (
        e,
        ends,
        subst (GivenTo c.read_dones (messages frames)) (sym calls)
            (answer_calls-GivenTo c.read_dones (messages frames)),
        gone,
        same,
      )
