-- ===== src/Controller/Plan.antt =====
-- controller/: the plan of `_resourceControl`, from the start of the controller to its end.
use go_test_cluster.Prelude.{
  ℕ, ◌+◌, ◌≤◌, length, take, drop, take-append_le, take-length, inr, ◌≡◌, ◌≢◌, refl, ap, ◌∙◌, true,
  false, List, [], ◌∷◌, ◌++◌, some, arith, ◌⊎◌, inl, ◌==◌, if◌then◌else◌,
}
use go_test_cluster.Prelude.Int.{ℤ}
use go_test_cluster.Prelude.Text.{Bytes, codes}
use go_test_cluster.Consts.{control_resource, all_client_up, buff_max}
use go_test_cluster.Message.{
  Json, MessageResourceControllRequest, MessageResourceControllResponse, message_id_hello,
  message_id_resource_response,
}
use go_test_cluster.Ipcc.{Client, IpcClientMsg, get_seqno, contents, overwrite}
use go_test_cluster.Ipcc as Ipcc
use go_test_cluster.Controller.Control.{
  send_async, send_sync, Controll, init, hello_request, start_request, monitor_request, send_status,
  resource_control, process_status, process_ipc_client, process_confchg, set_nodeid,
  send_recv_return, Op, boot, take_status, take_client, incoming, returns, confchg, reads,
  loop_step, loop, run,
}
use go_test_cluster.Controller.Overflow.{IsReport, run-some}

-- The controller between two requests: the event loop is free, the node known, and `m` the one message
-- on a channel.
record IsReady (m : IpcClientMsg) (c : Controll) : Type 0 where
  known : c.nodeid ≢ 0
  free : c.waiting ≡ false
  going : c.stuck ≡ false
  quiet : c.status_ch ≡ []
  held : c.rman_connect.ipcrecv_ch ≡ m ∷ []

-- The request that `step` stands for.
abbrev planned : ℕ → ℕ → MessageResourceControllRequest
planned step n = if step == 1 then start_request n else monitor_request n

abbrev emptied : Client → Client
emptied k = record k { ipcrecv_ch = [] }

abbrev told : ℤ → Controll → Controll
told v c = record c { status_ch = v ∷ []; rman_connect = emptied c.rman_connect }

abbrev asking : Controll → Controll
asking c = record c {
  status_ch = [];
  rman_connect = (get_seqno (emptied c.rman_connect)).1;
  calls = c.calls ++ send_sync (planned c.step (get_seqno c.rman_connect).0) ∷ [];
  waiting = true;
}

-- The receiver has read `b`, while `SendRecv` waits.
abbrev shows : Bytes → Controll → Controll
shows b c = record (asking c) {
  rman_connect = record (get_seqno (emptied c.rman_connect)).1 {
    buf = overwrite b c.rman_connect.buf;
  };
}

abbrev answered : Bytes → IpcClientMsg → Controll → Controll
answered b r c = record c {
  status_ch = [];
  rman_connect = record (get_seqno (emptied c.rman_connect)).1 {
    ipcrecv_ch = r ∷ [];
    buf = overwrite b c.rman_connect.buf;
  };
  calls = c.calls ++ send_sync (planned c.step (get_seqno c.rman_connect).0) ∷ [];
  waiting = false;
  step = c.step + 1;
}

-- A message, the status that it leads to, and the reply to the request that is sent then, with its
-- bytes.
abbrev pub round : Bytes → IpcClientMsg → List Op
round b r = take_client ∷ take_status ∷ reads b ∷ returns r ∷ []

-- The bytes of a message that fit the buffer and decode to a result.
pub record IsReply (j : Json) (b : Bytes) (r : IpcClientMsg) : Type 0 where
  pub kind : r.head.types ≡ message_id_resource_response
  pub all : r.all ≡ length b
  pub fits : length b ≤ buff_max
  pub decoded : (x : MessageResourceControllResponse) × (j.unmarshal_response b ≡ some x)

answered-IsReport :
    (j : Json) (b : Bytes) (r : IpcClientMsg) (c : Controll)
    → IsReply j b r
    → IsReport j (answered b r c) r
unfolding get_seqno
answered-IsReport j b r c k =
    let shown : take (length b) (overwrite b c.rman_connect.buf) ≡ b =
      take-append_le (length b) b (drop (length b) c.rman_connect.buf) (omega arith)
      ∙ take-length b in
    inr (
      k.kind,
      (
        k.decoded.0,
        ap (λ n. j.unmarshal_response (take n (overwrite b c.rman_connect.buf))) k.all
            ∙ ap j.unmarshal_response shown
            ∙ k.decoded.1,
      ),
    )

module _ (j : Json) (pid : ℤ) (c : Controll) (m : IpcClientMsg) (ready : IsReady m c) where
  told-step : IsReport j c m → loop j pid take_client c ≡ some (told control_resource c)
  unfolding loop loop_step process_ipc_client send_status
  told-step h = ground (arith, ready, h)

  asking-step :
      (c.step ≡ 1) ⊎ (c.step ≡ 2)
      → loop j pid take_status (told control_resource c) ≡ some (asking c)
  unfolding loop loop_step process_status resource_control get_seqno
  asking-step h = ground (arith, ready, h)

  shows-step :
      (b : Bytes) → length b ≤ buff_max → loop j pid (reads b) (asking c) ≡ some (shows b c)
  unfolding loop loop_step get_seqno
  shows-step b fits = ground (arith, ready, fits)

  answered-step :
      (b : Bytes) (r : IpcClientMsg) → loop j pid (returns r) (shows b c) ≡ some (answered b r c)
  unfolding loop loop_step send_recv_return get_seqno
  answered-step b r = ground (arith, ready)

  round-run :
      (b : Bytes) (r : IpcClientMsg) (os : List Op)
      → length b ≤ buff_max
      → IsReport j c m
      → (c.step ≡ 1) ⊎ (c.step ≡ 2)
      → run j pid (round b r ++ os) c ≡ run j pid os (answered b r c)
  round-run b r os fits h s =
      run-some j pid take_client _ c (told-step h)
      ∙ run-some j pid take_status _ (told control_resource c) (asking-step s)
      ∙ run-some j pid (reads b) _ (asking c) (shows-step b fits)
      ∙ run-some j pid (returns r) os (shows b c) (answered-step b r)

  answered-IsReady : (b : Bytes) (r : IpcClientMsg) → IsReady r (answered b r c)
  answered-IsReady b r = record {
    known = ready.known;
    free = refl;
    going = ready.going;
    quiet = refl;
    held = refl;
  }

-- What `ProcessRun`, a change of membership and the answer to the hello bring about.
abbrev pub opening : ℕ → IpcClientMsg → List Op
opening id m = boot ∷ take_status ∷ confchg id ∷ incoming m ∷ []

-- The last reply, and the two statuses that it leads to.
abbrev pub closing : List Op
closing = take_client ∷ take_status ∷ take_status ∷ []

abbrev opened : ℤ → ℕ → IpcClientMsg → Controll
opened pid id m = record init {
  nodeid = id;
  status = all_client_up;
  rman_connect = record Ipcc.new { ipcrecv_ch = m ∷ [] };
  calls = send_async (hello_request pid) ∷ [];
  multicast = codes "xyz----XYZ2" ∷ [];
}

opening-run :
    (j : Json) (pid : ℤ) (id : ℕ) (m : IpcClientMsg) (os : List Op)
    → run j pid (opening id m ++ os) init ≡ run j pid os (opened pid id m)
unfolding run loop loop_step process_status process_confchg set_nodeid init Ipcc.new
opening-run j pid id m os = refl

closed : Controll → Controll
closed c = record c { status_ch = []; rman_connect = emptied c.rman_connect }

closing-run :
    (j : Json) (pid : ℤ) (c : Controll) (m : IpcClientMsg)
    → IsReady m c
    → IsReport j c m
    → c.step ≡ 3
    → run j pid closing c ≡ closed c
unfolding run loop loop_step process_ipc_client process_status resource_control send_status closed
closing-run j pid c m ready h done = ground (arith, ready, h, done)

-- The whole plan: the opening, a round for each request, the closing.
abbrev pub course : ℕ → IpcClientMsg → Bytes → IpcClientMsg → Bytes → IpcClientMsg → List Op
course id m b₁ r₁ b₂ r₂ = opening id m ++ round b₁ r₁ ++ round b₂ r₂ ++ closing

-- The plan of the controller comes to its end. When `ProcessRun` has sent STARTUP, a membership change
-- gives a node id that is not 0, the resource manager answers the hello, and each of the two calls of
-- `SendRecv` returns with an answer whose bytes, at most BUFF_MAX, decode to a result, then the
-- controller has made three calls in this order: its hello, the start of the resource under the
-- number 1, the monitor of it under the number 2; `step` is 3, the event loop neither waits nor is
-- stuck, and no channel of it holds a message.
pub plan_completes :
    (j : Json) (pid : ℤ) (id : ℕ) (m : IpcClientMsg) (b₁ : Bytes) (r₁ : IpcClientMsg) (b₂ : Bytes)
    (r₂ : IpcClientMsg)
    → id ≢ 0
    → m.head.types ≡ message_id_hello
    → IsReply j b₁ r₁
    → IsReply j b₂ r₂
    → let c = run j pid (course id m b₁ r₁ b₂ r₂) init in
      (c.calls
        ≡ send_async (hello_request pid)
          ∷ send_sync (start_request 1)
          ∷ send_sync (monitor_request 2)
          ∷ [])
      × (c.step ≡ 3)
      × (c.waiting ≡ false)
      × (c.stuck ≡ false)
      × (c.status_ch ≡ [])
      × (c.rman_connect.ipcrecv_ch ≡ [])
unfolding init Ipcc.new get_seqno closed
plan_completes j pid id m b₁ r₁ b₂ r₂ known hello first second =
    let c₁ = opened pid id m in
    let ready₁ : IsReady m c₁ = record {
      known = known;
      free = refl;
      going = refl;
      quiet = refl;
      held = refl;
    } in
    let c₂ = answered b₁ r₁ c₁ in
    let ready₂ = answered-IsReady j pid c₁ m ready₁ b₁ r₁ in
    let c₃ = answered b₂ r₂ c₂ in
    let ready₃ = answered-IsReady j pid c₂ r₁ ready₂ b₂ r₂ in
    let went : run j pid (course id m b₁ r₁ b₂ r₂) init ≡ closed c₃ =
      opening-run j pid id m (round b₁ r₁ ++ round b₂ r₂ ++ closing)
      ∙ round-run j pid c₁ m ready₁ b₁ r₁ (round b₂ r₂ ++ closing) first.fits (inl hello) (inl refl)
      ∙ round-run j pid c₂ r₁ ready₂ b₂ r₂ closing second.fits (answered-IsReport j b₁ r₁ c₁ first)
          (inr refl)
      ∙ closing-run j pid c₃ r₂ ready₃ (answered-IsReport j b₂ r₂ c₂ second) refl in
    (
      ap (λ (c : Controll). c.calls) went,
      ap (λ (c : Controll). c.step) went,
      ap (λ (c : Controll). c.waiting) went,
      ap (λ (c : Controll). c.stuck) went,
      ap (λ (c : Controll). c.status_ch) went,
      ap (λ (c : Controll). c.rman_connect.ipcrecv_ch) went,
    )
