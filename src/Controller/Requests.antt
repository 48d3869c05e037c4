-- ===== src/Controller/Requests.antt =====
-- controller/: what the controller asks of the resource manager, over any run.
use go_test_cluster.Prelude.{
  ℕ, ◌≤◌, ◌≡◌, refl, Bool, true, false, List, [], ◌∷◌, ◌++◌, some, arith, ◌⊎◌, inl, inr, append-nil,
  Option-cases, length, List-cases,
}
use go_test_cluster.Prelude.Int.{ℤ}
use go_test_cluster.Message.{MessageResourceControllRequest, Json}
use go_test_cluster.Consts.{startup, control_resource, operational}
use go_test_cluster.Ipcc.{IpcClientMsg, get_seqno}
use go_test_cluster.Ipcc as Ipcc
use go_test_cluster.Controller.Control.{
  Call, send_async, send_sync, Controll, init, hello_request, start_request, monitor_request,
  send_status, resource_control, process_status, process_ipc_client, send_recv_return, Op, boot,
  take_status, take_client, incoming, returns, confchg, deliver, totemchg, reads, set_nodeid,
  process_confchg, process_deliver, process_totemchg, loop_step, loop, run,
}

-- The synchronous requests among the calls.
pub requests : List Call → List MessageResourceControllRequest
requests [] = []
requests (send_async m ∷ cs) = requests cs
requests (send_sync r ∷ cs) = r ∷ requests cs

requests-append : (cs ds : List Call) → requests (cs ++ ds) ≡ requests cs ++ requests ds
unfolding requests
requests-append [] ds = refl
requests-append (send_async m ∷ cs) ds = requests-append cs ds
requests-append (send_sync r ∷ cs) ds = ground (arith, requests-append cs ds)

-- How far the plan has come: `step`, whether `SendRecv` waits, the requests, the last number.
abbrev Stage : ℕ → Bool → List MessageResourceControllRequest → ℕ → Type 0
Stage s w rs n =
    ((s ≡ 1) × (w ≡ false) × (rs ≡ []) × (n ≡ 0))
    ⊎ ((s ≡ 1) × (w ≡ true) × (rs ≡ start_request 1 ∷ []) × (n ≡ 1))
    ⊎ ((s ≡ 2) × (w ≡ false) × (rs ≡ start_request 1 ∷ []) × (n ≡ 1))
    ⊎ ((s ≡ 2) × (w ≡ true) × (rs ≡ start_request 1 ∷ monitor_request 2 ∷ []) × (n ≡ 2))
    ⊎ ((s ≡ 3) × (w ≡ false) × (rs ≡ start_request 1 ∷ monitor_request 2 ∷ []) × (n ≡ 2))

abbrev OnPlan : Controll → Type 0
OnPlan c = Stage c.step c.waiting (requests c.calls) c.rman_connect.seqno

send_status-OnPlan : (v : ℤ) (c : Controll) → OnPlan c → OnPlan (send_status v c)
unfolding send_status
send_status-OnPlan v c h = ground arith

resource_control-OnPlan :
    (c : Controll) → c.waiting ≡ false → OnPlan c → OnPlan (resource_control c).0
unfolding resource_control requests get_seqno
resource_control-OnPlan c idle h = ground (
  arith,
  requests-append c.calls (send_sync (start_request 1) ∷ []),
  requests-append c.calls (send_sync (monitor_request 2) ∷ []),
)

process_status-OnPlan :
    (pid v : ℤ) (c : Controll) → c.waiting ≡ false → OnPlan c → OnPlan (process_status pid v c)
unfolding process_status requests
process_status-OnPlan pid v c idle h = ground (
  arith,
  requests-append c.calls (send_async (hello_request pid) ∷ []),
  append-nil (requests c.calls),
  resource_control-OnPlan c idle h,
  send_status-OnPlan operational (resource_control c).0,
)

process_ipc_client-OnPlan :
    (j : Json) (m : IpcClientMsg) (c : Controll) → OnPlan c → OnPlan (process_ipc_client j m c)
unfolding process_ipc_client
process_ipc_client-OnPlan j m c h =
    ground (arith, send_status-OnPlan startup c h, send_status-OnPlan control_resource c h)

set_nodeid-OnPlan : (id : ℕ) (c : Controll) → OnPlan c → OnPlan (set_nodeid id c)
unfolding set_nodeid
set_nodeid-OnPlan id c h = ground arith

confchg-OnPlan : (id : ℕ) (c : Controll) → OnPlan c → OnPlan (process_confchg id c)
unfolding process_confchg
confchg-OnPlan id c h = ground (arith, set_nodeid-OnPlan id c h)

deliver-OnPlan : (id : ℕ) (c : Controll) → OnPlan c → OnPlan (process_deliver id c)
unfolding process_deliver
deliver-OnPlan id c h = set_nodeid-OnPlan id c h

totemchg-OnPlan : (id : ℕ) (c : Controll) → OnPlan c → OnPlan (process_totemchg id c)
unfolding process_totemchg
totemchg-OnPlan id c h = set_nodeid-OnPlan id c h

send_recv_return-OnPlan :
    (m : IpcClientMsg) (c : Controll) {d : Controll}
    → send_recv_return m c ≡ some d
    → OnPlan c
    → OnPlan d
unfolding send_recv_return
send_recv_return-OnPlan m c e h = ground arith

loop-OnPlan :
    (j : Json) (pid : ℤ) (o : Op) (c : Controll) {d : Controll}
    → loop j pid o c ≡ some d
    → OnPlan c
    → OnPlan d
unfolding loop loop_step
loop-OnPlan j pid take_status c e h = elim (List-cases c.status_ch) [
  | inl empty ↦ ground arith
  | inr (v, q, more) ↦ ground (arith, process_status-OnPlan pid v (record c { status_ch = q }))
]
loop-OnPlan j pid take_client c e h = elim (List-cases c.rman_connect.ipcrecv_ch) [
  | inl empty ↦ ground arith
  | inr (m, q, more) ↦ ground (
    arith,
    process_ipc_client-OnPlan j m
        (record c { rman_connect = record c.rman_connect { ipcrecv_ch = q } }),
  )
]
loop-OnPlan j pid boot c e h = ground arith
loop-OnPlan j pid (incoming m) c e h = ground arith
loop-OnPlan j pid (returns m) c {d} e h = ground (arith, send_recv_return-OnPlan m c {d = d})
loop-OnPlan j pid (confchg id) c e h = ground (arith, confchg-OnPlan id c h)
loop-OnPlan j pid (deliver id) c e h = ground (arith, deliver-OnPlan id c h)
loop-OnPlan j pid (totemchg id) c e h = ground (arith, totemchg-OnPlan id c h)
loop-OnPlan j pid (reads b) c e h = ground arith

run-OnPlan : (j : Json) (pid : ℤ) (os : List Op) (c : Controll) → OnPlan c → OnPlan (run j pid os c)
unfolding run
run-OnPlan j pid [] c h = h
run-OnPlan j pid (o ∷ os) c h = elim (Option-cases (loop j pid o c)) [
  | inl e ↦ rw (e, run) (run-OnPlan j pid os c h)
  | inr (d, e) ↦ rw (e, run) (run-OnPlan j pid os d (loop-OnPlan j pid o c e h))
]

init-OnPlan : OnPlan init
unfolding init requests Ipcc.new
init-OnPlan = inl (refl, refl, refl, refl)

abbrev plan : List MessageResourceControllRequest
plan = start_request 1 ∷ monitor_request 2 ∷ []

Stage-prefix :
    (s : ℕ) (w : Bool) (rs : List MessageResourceControllRequest) (n : ℕ)
    → Stage s w rs n
    → (rest : List MessageResourceControllRequest) × (rs ++ rest ≡ plan) × (s ≤ 3) × (length rs ≤ s)
Stage-prefix s w rs n (inl h) = (plan, ground arith, ground arith, ground arith)
Stage-prefix s w rs n (inr (inl h)) =
    (monitor_request 2 ∷ [], ground arith, ground arith, ground arith)
Stage-prefix s w rs n (inr (inr (inl h))) =
    (monitor_request 2 ∷ [], ground arith, ground arith, ground arith)
Stage-prefix s w rs n (inr (inr (inr (inl h)))) = ([], ground arith, ground arith, ground arith)
Stage-prefix s w rs n (inr (inr (inr (inr h)))) = ([], ground arith, ground arith, ground arith)

-- Whatever reaches the controller, and in whatever order, its requests to the resource manager are
-- a beginning of two: the start of its resource under the number 1, then the monitor of it under
-- the number 2. Each is sent at most once, and the second only after `SendRecv` has returned from
-- the first.
pub requests_on_plan :
    (j : Json) (pid : ℤ) (os : List Op)
    → let c = run j pid os init in
      (rest : List MessageResourceControllRequest) × (requests c.calls ++ rest
        ≡ start_request 1 ∷ monitor_request 2 ∷ [])
      × (c.step ≤ 3)
      × (length (requests c.calls) ≤ c.step)
requests_on_plan j pid os = Stage-prefix _ _ _ _ (run-OnPlan j pid os init init-OnPlan)
