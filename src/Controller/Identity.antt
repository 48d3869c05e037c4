-- ===== src/Controller/Identity.antt =====
-- controller/main.go: `_setNodeid` and the node id that the controller keeps.
use go_test_cluster.Prelude.{
  ◌≡◌, ◌≢◌, refl, List, [], ◌∷◌, some, arith, Option-cases, List-cases, inl, inr, ◌∙◌,
}
use go_test_cluster.Prelude.Int.{ℤ}
use go_test_cluster.Message.{Json}
use go_test_cluster.Ipcc.{IpcClientMsg}
use go_test_cluster.Controller.Control.{
  Controll, Op, boot, take_status, take_client, incoming, returns, confchg, deliver, totemchg,
  reads, loop_step, loop, run, send_status, resource_control, process_status, process_ipc_client,
  set_nodeid, process_confchg, process_deliver, process_totemchg, send_recv_return,
}

resource_control-nodeid : (c : Controll) → (resource_control c).0.nodeid ≡ c.nodeid
unfolding resource_control
resource_control-nodeid c = ground arith

process_status-nodeid : (pid v : ℤ) (c : Controll) → (process_status pid v c).nodeid ≡ c.nodeid
unfolding process_status send_status
process_status-nodeid pid v c = ground (arith, resource_control-nodeid c)

process_ipc_client-nodeid :
    (j : Json) (m : IpcClientMsg) (c : Controll) → (process_ipc_client j m c).nodeid ≡ c.nodeid
unfolding process_ipc_client send_status
process_ipc_client-nodeid j m c = ground arith

loop-nodeid :
    (j : Json) (pid : ℤ) (o : Op) (c d : Controll)
    → c.nodeid ≢ 0
    → loop j pid o c ≡ some d
    → d.nodeid ≡ c.nodeid
unfolding loop loop_step send_recv_return process_confchg process_deliver process_totemchg
    set_nodeid
loop-nodeid j pid boot c d known e = ground (arith, e)
loop-nodeid j pid take_status c d known e = elim (List-cases c.status_ch) [
  | inl empty ↦ absurd (ground (arith, empty, e))
  | inr (v, q, held) ↦
      ground (arith, held, e, process_status-nodeid pid v (record c { status_ch = q }))
]
loop-nodeid j pid take_client c d known e = elim (List-cases c.rman_connect.ipcrecv_ch) [
  | inl empty ↦ absurd (ground (arith, empty, e))
  | inr (m, q, held) ↦ ground (
    arith,
    held,
    e,
    process_ipc_client-nodeid j m
        (record c { rman_connect = record c.rman_connect { ipcrecv_ch = q } }),
  )
]
loop-nodeid j pid (incoming m) c d known e = ground (arith, e)
loop-nodeid j pid (returns m) c d known e = ground (arith, e)
loop-nodeid j pid (confchg id) c d known e = ground (arith, known, e)
loop-nodeid j pid (deliver id) c d known e = ground (arith, known, e)
loop-nodeid j pid (totemchg id) c d known e = ground (arith, known, e)
loop-nodeid j pid (reads b) c d known e = ground (arith, e)

-- A node id that is not 0 stays, in any run of the event loop.
pub run-nodeid :
    (j : Json) (pid : ℤ) (os : List Op) (c : Controll)
    → c.nodeid ≢ 0
    → (run j pid os c).nodeid ≡ c.nodeid
unfolding run
run-nodeid j pid [] c known = refl
run-nodeid j pid (o ∷ os) c known = elim (Option-cases (loop j pid o c)) [
  | inl idle ↦ rw (idle, run) (run-nodeid j pid os c known)
  | inr (d, went) ↦
      let same = loop-nodeid j pid o c d known went in
      rw (went, run) (run-nodeid j pid os d (ground (arith, known, same)) ∙ same)
]
