-- ===== src/Ipcc/Tests.antt =====
-- Runs of the socket client, and the theorems at concrete inputs.
use go_test_cluster.Prelude.{some, ℕ, ◌≤◌, ◌≡◌, ◌≢◌, refl, true, List, [], ◌∷◌, ◌++◌, arith, length}
use go_test_cluster.Prelude.Text.{Bytes}
use go_test_cluster.Prelude.Dict.{lookup, insert, delete}
use go_test_cluster.Samples.{sample_json, header_of}
use go_test_cluster.Ipcc.{
  Client, IpcClientMsg, get_seqno, Op, new, max_uint64, contents, take_reply, step, run,
}
use go_test_cluster.Ipcc.Seqno.{nth_seqno, nth_seqno-ne}
use go_test_cluster.Ipcc.Delivery.{uses, reply_at_most_once}
use go_test_cluster.Ipcc.Match.{reply_matches}
use go_test_cluster.Ipcc.Order.{outbox, issued_by, run-outbox}
use go_test_cluster.Ipcc.Buffer.{late_slice_overwritten}

abbrev message : ℕ → Bytes
message n = n ∷ 1 ∷ []

-- A call and its answer, with a hello from the other side in between.
abbrev exchange : List Op
exchange =
    Op.sync message
    ∷ Op.call_next
    ∷ Op.write true
    ∷ Op.arrive (0 ∷ 0 ∷ [])
    ∷ Op.hand_on
    ∷ Op.read_next
    ∷ Op.arrive (1 ∷ 2 ∷ [])
    ∷ Op.hand_on
    ∷ Op.read_next
    ∷ []

exchange_replies : (run sample_json exchange new).written ≡ (1 ∷ 1 ∷ []) ∷ []
unfolding run step new lookup insert delete
exchange_replies = refl

exchange_resumed : length (run sample_json (exchange ++ Op.resume 0 ∷ []) new).ipcrecv_ch ≡ 2
unfolding run step new lookup insert delete take_reply
exchange_resumed = refl

nth_seqno-ne_example :
    (nth_seqno 0 (record new { seqno = max_uint64 }) ≢ 0)
    × (nth_seqno 0 (record new { seqno = max_uint64 })
        ≢ nth_seqno 5 (record new { seqno = max_uint64 }))
nth_seqno-ne_example =
    nth_seqno-ne 0 5 (record new { seqno = max_uint64 }) (omega arith) (omega arith) (omega arith)

reply_at_most_once_example : uses 0 (run sample_json exchange new) ≤ 1
reply_at_most_once_example = reply_at_most_once sample_json exchange 0

-- The call of `exchange`, and what follows it.
abbrev called : Client
called = record new {
  seqno = 1;
  next_chan = 1;
  call_send_ch = record { seqno = 1; msg = message 1; sch = some 0 } ∷ [];
}

abbrev answer : IpcClientMsg
answer = record { head = header_of (1 ∷ 2 ∷ []); all = 2 }

abbrev answering : List Op
answering = Op.call_next ∷ Op.write true ∷ Op.arrive (1 ∷ 2 ∷ []) ∷ Op.hand_on ∷ Op.read_next ∷ []

reply_matches_example :
    (answer.head.seq_no ≡ (get_seqno (run sample_json [] new)).0) × (answer.head.seq_no ≢ 0)
unfolding run step new lookup insert delete
reply_matches_example = reply_matches sample_json [] answering message called 0 answer refl refl

run-outbox_example :
    outbox (run sample_json exchange new) ≡ outbox new ++ issued_by sample_json exchange new
run-outbox_example = run-outbox sample_json exchange new (omega arith)

late_slice_overwritten_example :
    let ops = Op.arrive (5 ∷ 6 ∷ []) ∷ Op.hand_on ∷ Op.arrive (7 ∷ 8 ∷ 9 ∷ []) ∷ Op.hand_on ∷ [] in
    let s = run sample_json ops new in (s.rcv_read_ch ≡ 2 ∷ 3 ∷ []) × (contents 2 s ≡ 7 ∷ 8 ∷ [])
unfolding new
late_slice_overwritten_example =
    late_slice_overwritten sample_json new (5 ∷ 6 ∷ []) (7 ∷ 8 ∷ 9 ∷ []) refl refl refl
      (omega arith) (omega arith)
