-- ===== src/Ipcc/Order.antt =====
-- ipcc/ipcc.go: the way of a message from its caller to the socket.
use go_test_cluster.Prelude.{
  ◌≡◌, refl, sym, ◌∙◌, true, false, List, [], ◌∷◌, ◌++◌, map, append-nil, append_assoc, none, some,
  arith, ap, All, Option-cases, inl, inr,
}
use go_test_cluster.Prelude.Text.{Bytes}
use go_test_cluster.Message.{Json}
use go_test_cluster.Ipcc.{Client, SendInfo, Op, get_seqno, sender_write, serve_call, step, run}

-- The messages on their way to the socket: written, with the sender, with the dispatcher.
abbrev pub outbox : Client → List Bytes
outbox c = c.written ++ (c.snd_write_ch ++ map (λ (w : SendInfo). w.msg) c.call_send_ch)

-- The message that a call puts on its way.
abbrev pub issued : Op → Client → List Bytes
issued (Op.sync f) c = f (get_seqno c).0 ∷ []
issued (Op.async m) c = m ∷ []
issued _ c = []

-- The outbox up to which no write has failed.
abbrev pub IsIntact : Op → Type 0
IsIntact (Op.write false) = ⊥
IsIntact _ = Unit {0}

map-snoc :
    (xs : List SendInfo) (w : SendInfo)
    → map (λ (v : SendInfo). v.msg) (xs ++ w ∷ []) ≡ map (λ (v : SendInfo). v.msg) xs ++ w.msg ∷ []
map-snoc [] w = refl
map-snoc (x ∷ xs) w = ap (◌∷◌ x.msg) (map-snoc xs w)

snoc-at_end :
    (xs ys zs : List Bytes) (m : Bytes)
    → xs ++ (ys ++ (zs ++ m ∷ [])) ≡ (xs ++ (ys ++ zs)) ++ m ∷ []
snoc-at_end xs ys zs m = simp append_assoc

snoc-in_middle :
    (xs ys zs : List Bytes) (m : Bytes) → xs ++ ((ys ++ m ∷ []) ++ zs) ≡ xs ++ (ys ++ (m ∷ zs))
snoc-in_middle xs ys zs m = simp append_assoc

snoc-at_front : (xs zs : List Bytes) (m : Bytes) → (xs ++ m ∷ []) ++ zs ≡ xs ++ (m ∷ zs)
snoc-at_front xs zs m = simp append_assoc

write-outbox : (c : Client) {d : Client} → sender_write true c ≡ some d → outbox d ≡ outbox c
unfolding sender_write
write-outbox c h = grind (arith, snoc-at_front)

call-outbox : (c : Client) {d : Client} → serve_call c ≡ some d → outbox d ≡ outbox c
unfolding serve_call
call-outbox c h = grind (arith, snoc-in_middle)

step-outbox :
    (j : Json) (op : Op) (c : Client) {d : Client}
    → IsIntact op
    → step j op c ≡ some d
    → outbox d ≡ outbox c ++ issued op c
unfolding step
step-outbox j (Op.sync f) c i h =
    let n = (get_seqno c).0 in
    ground (
      arith,
      map-snoc c.call_send_ch (record { seqno = n; msg = f n; sch = some c.next_chan }),
      snoc-at_end c.written c.snd_write_ch (map (λ (w : SendInfo). w.msg) c.call_send_ch) (f n),
    )
step-outbox j (Op.async m) c i h = ground (
  arith,
  map-snoc c.call_send_ch (record { seqno = 0; msg = m; sch = none }),
  snoc-at_end c.written c.snd_write_ch (map (λ (w : SendInfo). w.msg) c.call_send_ch) m,
)
step-outbox j (Op.write true) c i h = rw append-nil (write-outbox c h)
step-outbox j (Op.write false) c i h = absurd i
step-outbox j Op.call_next c i h = rw append-nil (call-outbox c h)
step-outbox j op c i h = rw append-nil (ground arith)

-- The messages that the steps of a run issue, in order.
pub issued_by : Json → List Op → Client → List Bytes
issued_by j [] c = []
issued_by j (op ∷ ops) c = elim (step j op c) [
  | none ↦ issued_by j ops c
  | some d ↦ issued op c ++ issued_by j ops d
]

-- In any interleaving of callers, dispatcher, sender and receiver in which no write fails, what
-- has been written and what is still queued is what was there before and then the messages of
-- the calls made, in the order of the calls: none is lost, doubled or overtaken.
pub run-outbox :
    (j : Json) (ops : List Op) (c : Client)
    → All IsIntact ops
    → outbox (run j ops c) ≡ outbox c ++ issued_by j ops c
unfolding run issued_by
run-outbox j [] c i = sym (append-nil (outbox c))
run-outbox j (op ∷ ops) c i = elim (Option-cases (step j op c)) [
  | inl blocked ↦ rw (blocked, run, issued_by) (run-outbox j ops c i.1)
  | inr (d, done) ↦
      rw (done, run, issued_by)
        (run-outbox j ops d i.1
          ∙ (ap (λ o. o ++ issued_by j ops d) (step-outbox j op c i.0 done)
              ∙ append_assoc (outbox c) (issued op c) (issued_by j ops d)))
]
