-- ===== src/Ipcc/Match.antt =====
-- ipcc/ipcc.go: the numbers of the calls of `SendRecv` and of their replies.
use go_test_cluster.Prelude.{
  ℕ, ◌≤◌, ◌<◌, ◌≡◌, ◌≢◌, List, [], ◌∷◌, ◌++◌, none, some, arith, All, get_elem?, get_elem-All, refl,
  Option-cases, inl, inr, nat_eq,
}
use go_test_cluster.Prelude.Text.{Bytes}
use go_test_cluster.Prelude.Dict.{Dict, lookup, insert, delete}
use go_test_cluster.Message.{Json}
use go_test_cluster.Ipcc.{
  Client, SendInfo, IpcClientMsg, Op, new, get_seqno, send_recv, send_recv_async, send_recv_wait,
  take_reply, serve_call, serve_read, route, step, run, contents, max_uint64,
}
use go_test_cluster.Ipcc.Seqno.{run-seqno}
use go_test_cluster.Ipcc.Delivery.{
  in_calls, in_map, in_replies, Inv, run-Inv, new-Inv, step-IsUse, read_cases,
}

All-snoc {ℓ κ} :
    {A : Type ℓ} (P : A → Type κ) (xs : List A) (x : A) → All P xs → P x → All P (xs ++ x ∷ [])
All-snoc P [] x h p = (p, tt)
All-snoc P (y ∷ xs) x h p = (h.0, All-snoc P xs x h.1 p)

module _ (ch n : ℕ) where
  abbrev CallTag : SendInfo → Type 0
  CallTag w = w.sch ≡ some ch → w.seqno ≡ n

  abbrev EntryTag : ℕ × ℕ → Type 0
  EntryTag e = e.1 ≡ ch → e.0 ≡ n

  abbrev pub ReplyTag : ℕ × IpcClientMsg → Type 0
  ReplyTag r = r.0 ≡ ch → r.1.head.seq_no ≡ n

  -- Wherever the channel `ch` stands, it stands with the number `n`.
  record IsTagged (c : Client) : Type 0 where
    calls : All CallTag c.call_send_ch
    entries : All EntryTag c.sync_map
    answers : All ReplyTag c.replies

  entries-insert :
      (k i : ℕ) (m : Dict ℕ ℕ) → All EntryTag m → EntryTag (k, i) → All EntryTag (insert k i m)
  unfolding insert
  entries-insert k i [] h p = (p, tt)
  entries-insert k i ((j, v) ∷ m) h p = ground (arith, entries-insert k i m h.1)

  entries-delete : (k : ℕ) (m : Dict ℕ ℕ) → All EntryTag m → All EntryTag (delete k m)
  unfolding delete
  entries-delete k [] h = tt
  entries-delete k ((j, v) ∷ m) h = ground (arith, entries-delete k m h.1)

  entries-lookup : (k i : ℕ) (m : Dict ℕ ℕ) → All EntryTag m → lookup k m ≡ some i → EntryTag (k, i)
  unfolding lookup
  entries-lookup k i [] h e = cc
  entries-lookup k i ((j, v) ∷ m) h e = ground (arith, entries-lookup k i m h.1)

  answers-take :
      (i : ℕ) (rs : List (ℕ × IpcClientMsg)) {m : IpcClientMsg} {qs : List (ℕ × IpcClientMsg)}
      → take_reply i rs ≡ some (m, qs)
      → All ReplyTag rs
      → All ReplyTag qs
  unfolding take_reply
  answers-take i [] h a = cc
  answers-take i ((k, v) ∷ rs) {m} {qs} h a = elim (Option-cases (take_reply i rs)) [
    | inl e ↦ ground arith
    | inr ((m', qs'), e) ↦ ground (arith, answers-take i rs e a.1)
  ]

  sync-IsTagged :
      (f : ℕ → Bytes) (c : Client) {d : Client}
      → (let (k, e) = get_seqno c in send_recv (f k) k e) ≡ some d
      → ch < c.next_chan
      → IsTagged c
      → IsTagged d
  unfolding send_recv get_seqno
  sync-IsTagged f c h below t =
      let k = (get_seqno c).0 in
      let w : SendInfo = record { seqno = k; msg = f k; sch = some c.next_chan } in
      ground (arith, All-snoc CallTag c.call_send_ch w t.calls)

  async-IsTagged :
      (m : Bytes) (c : Client) {d : Client} → send_recv_async m c ≡ some d → IsTagged c → IsTagged d
  unfolding send_recv_async
  async-IsTagged m c h t =
      let w : SendInfo = record { seqno = 0; msg = m; sch = none } in
      ground (arith, All-snoc CallTag c.call_send_ch w t.calls)

  wait-IsTagged :
      (i : ℕ) (c : Client) {d : Client} → send_recv_wait i c ≡ some d → IsTagged c → IsTagged d
  unfolding send_recv_wait
  wait-IsTagged i c h t = elim (Option-cases (take_reply i c.replies)) [
    | inl e ↦ ground arith
    | inr ((m, qs), e) ↦ ground (arith, answers-take i c.replies e t.answers)
  ]

  route-IsTagged :
      (j : Json) (n' : ℕ) (c : Client) {d : Client}
      → route j n' c ≡ some d
      → IsTagged c
      → IsTagged d
  unfolding route
  route-IsTagged j n' c h t =
      let hd = (j.unmarshal_common (contents n' c)).0.header in
      let k = hd.seq_no in
      let m : IpcClientMsg = record { head = hd; all = n' } in
      elim (Option-cases (lookup k c.sync_map)) [
        | inl e ↦ ground arith
        | inr (i, e) ↦ ground (
          arith,
          entries-delete k c.sync_map t.entries,
          entries-lookup k i c.sync_map t.entries e,
          All-snoc ReplyTag c.replies (i, m) t.answers,
        )
      ]

  read-IsTagged :
      (j : Json) (c : Client) {d : Client} → serve_read j c ≡ some d → IsTagged c → IsTagged d
  read-IsTagged j c h t =
      let (n', q, e) = read_cases j c h in route-IsTagged j n' _ e (ground arith)

  call-IsTagged : (c : Client) {d : Client} → serve_call c ≡ some d → IsTagged c → IsTagged d
  unfolding serve_call
  call-IsTagged c h t = grind (arith, entries-insert)

  step-IsTagged :
      (j : Json) (op : Op) (c : Client) {d : Client}
      → step j op c ≡ some d
      → ch < c.next_chan
      → IsTagged c
      → IsTagged d
  unfolding step
  step-IsTagged j (Op.sync f) c h below t = sync-IsTagged f c h below t
  step-IsTagged j (Op.async m) c h below t = async-IsTagged m c h t
  step-IsTagged j (Op.resume i) c h below t = wait-IsTagged i c h t
  step-IsTagged j Op.read_next c h below t = read-IsTagged j c h t
  step-IsTagged j Op.call_next c h below t = call-IsTagged c h t
  step-IsTagged j op c h below t = ground arith

  run-IsTagged :
      (j : Json) (ops : List Op) (c : Client)
      → ch < c.next_chan
      → IsTagged c
      → IsTagged (run j ops c)
  unfolding run
  run-IsTagged j [] c below t = t
  run-IsTagged j (op ∷ ops) c below t = elim (Option-cases (step j op c)) [
    | inl e ↦ rw (e, run) (run-IsTagged j ops c below t)
    | inr (d, e) ↦
        rw (e, run)
          (run-IsTagged j ops d (omega (arith, step-IsUse j ch op c e))
            (step-IsTagged j op c e below t))
  ]

  calls-unused : (ws : List SendInfo) → in_calls ch ws ≡ 0 → All CallTag ws
  calls-unused [] h = tt
  calls-unused (w ∷ ws) h = ground (arith, calls-unused ws)

  entries-unused : (m : Dict ℕ ℕ) → in_map ch m ≡ 0 → All EntryTag m
  entries-unused [] h = tt
  entries-unused ((k, i) ∷ m) h = ground (arith, entries-unused m)

  answers-unused : (rs : List (ℕ × IpcClientMsg)) → in_replies ch rs ≡ 0 → All ReplyTag rs
  answers-unused [] h = tt
  answers-unused ((i, m) ∷ rs) h = ground (arith, answers-unused rs)

sync-IsTagged_new :
    (j : Json) (f : ℕ → Bytes) (c : Client) {d : Client}
    → Inv c.next_chan c
    → step j (Op.sync f) c ≡ some d
    → IsTagged c.next_chan (get_seqno c).0 d × (c.next_chan < d.next_chan)
unfolding step send_recv get_seqno
sync-IsTagged_new j f c v h =
    let ch = c.next_chan in
    let k = (get_seqno c).0 in
    let w : SendInfo = record { seqno = k; msg = f k; sch = some ch } in
    ground (
      arith,
      All-snoc (CallTag ch k) c.call_send_ch w
          (calls-unused ch k c.call_send_ch (omega (arith, v))),
      entries-unused ch k c.sync_map,
      answers-unused ch k c.replies,
    )

-- Let a call of `SendRecv` be made in a state that a new client reaches. It draws a number, and its
-- channel is the next one. Whatever happens then, every reply that is handed over on that channel
-- carries that number, and the number is not 0: no asynchronous message and no answer to another
-- call ends the wait.
pub reply_matches :
    (j : Json) (before after : List Op) (f : ℕ → Bytes) (d : Client) (i : ℕ) (m : IpcClientMsg)
    → step j (Op.sync f) (run j before new) ≡ some d
    → get_elem? (run j after d).replies i ≡ some ((run j before new).next_chan, m)
    → (m.head.seq_no ≡ (get_seqno (run j before new)).0) × (m.head.seq_no ≢ 0)
unfolding get_seqno new
reply_matches j before after f d i m h there =
    let c = run j before new in
    let (t, below) = sync-IsTagged_new j f c (run-Inv j c.next_chan before new (new-Inv _)) h in
    let tags = (run-IsTagged c.next_chan (get_seqno c).0 j after d below t).answers in
    let same = get_elem-All (ReplyTag c.next_chan (get_seqno c).0) _ i _ tags there refl in
    let small : c.seqno ≤ max_uint64 = run-seqno j before new (omega arith) in
    (same, ground (arith, same, small))
