-- ===== src/Controller/Overflow.antt =====
-- controller/main.go: `Status_ch` holds two values; the event loop sends on it and receives from it.
use go_test_cluster.Prelude.{
  ◌≤◌, ◌≡◌, ◌≢◌, refl, ap, ◌∙◌, true, false, List, [], ◌∷◌, ◌++◌, none, some, arith, ◌⊎◌, length,
  Option-cases, inl, inr,
}
use go_test_cluster.Prelude.Int.{ℤ}
use go_test_cluster.Message.{
  Json, MessageResourceControllResponse, message_id_hello, message_id_resource_response,
}
use go_test_cluster.Consts.{control_resource, operational}
use go_test_cluster.Ipcc.{IpcClientMsg, contents}
use go_test_cluster.Controller.Control.{
  Controll, send_status, resource_control, process_status, process_ipc_client, Op, take_status,
  take_client, boot, incoming, returns, confchg, deliver, totemchg, reads, send_recv_return,
  status_cap, loop_step, loop, run,
}

-- The plan is done and the event loop is free.
record IsIdle (c : Controll) : Type 0 where
  done : 3 ≤ c.step
  known : c.nodeid ≢ 0
  free : c.waiting ≡ false
  going : c.stuck ≡ false

abbrev client_with : List IpcClientMsg → List ℤ → Controll → Controll
client_with ms vs c = record c {
  status_ch = vs;
  rman_connect = record c.rman_connect { ipcrecv_ch = ms };
}

-- A message for which the controller goes on with its plan: a hello, or a result that can be read.
abbrev pub IsReport : Json → Controll → IpcClientMsg → Type 0
IsReport j c m =
    (m.head.types ≡ message_id_hello)
    ⊎ ((m.head.types ≡ message_id_resource_response)
        × ((r : MessageResourceControllResponse) × (j.unmarshal_response
                (contents m.all c.rman_connect)
              ≡ some r)))

module _ (j : Json) (pid : ℤ) (c : Controll) (idle : IsIdle c) where
  -- Such a message puts CONTROL_RESOURCE on the channel, and that turns into OPERATIONAL.
  report_step :
      (m : IpcClientMsg) (ms : List IpcClientMsg) (vs : List ℤ)
      → IsReport j c m
      → loop j pid take_client (client_with (m ∷ ms) vs c)
        ≡ some (send_status control_resource (client_with ms vs c))
  unfolding loop loop_step process_ipc_client
  report_step m ms vs h = ground (arith, idle)

  status_step :
      (ms : List IpcClientMsg) (v : ℤ) (vs : List ℤ)
      → loop j pid take_status (client_with ms (v ∷ vs) c)
        ≡ some (process_status pid v (client_with ms vs c))
  unfolding loop loop_step
  status_step ms v vs = ground (arith, idle)

  control_done :
      (ms : List IpcClientMsg) (vs : List ℤ)
      → process_status pid control_resource (client_with ms vs c)
        ≡ send_status operational (client_with ms vs c)
  unfolding process_status resource_control
  control_done ms vs = ground (arith, idle)

  nothing_step : (ms : List IpcClientMsg) → loop j pid take_status (client_with ms [] c) ≡ none
  unfolding loop loop_step
  nothing_step ms = ground (arith, idle)

  operational_done :
      (ms : List IpcClientMsg) (vs : List ℤ)
      → process_status pid operational (client_with ms vs c) ≡ client_with ms vs c
  unfolding process_status
  operational_done ms vs = refl

-- A turn of the poll loop without a signal: `Status_ch` first, `ipcClient_ch` later.
abbrev pub turn : List Op
turn = take_status ∷ take_client ∷ []

pub run-some :
    (j : Json) (pid : ℤ) (o : Op) (os : List Op) (c : Controll) {d : Controll}
    → loop j pid o c ≡ some d
    → run j pid (o ∷ os) c ≡ run j pid os d
unfolding run
run-some j pid o os c h = rw (h, run) refl

run-none :
    (j : Json) (pid : ℤ) (o : Op) (os : List Op) (c : Controll)
    → loop j pid o c ≡ none
    → run j pid (o ∷ os) c ≡ run j pid os c
unfolding run
run-none j pid o os c h = rw (h, run) refl

module _ (j : Json) (pid : ℤ) (c : Controll) (idle : IsIdle c) where
  turn_empty :
      (m : IpcClientMsg) (ms : List IpcClientMsg) (os : List Op)
      → IsReport j c m
      → run j pid (turn ++ os) (client_with (m ∷ ms) [] c)
        ≡ run j pid os (client_with ms (control_resource ∷ []) c)
  unfolding send_status
  turn_empty m ms os h =
      run-none j pid take_status _ _ (nothing_step j pid c idle (m ∷ ms))
      ∙ run-some j pid take_client os _ (report_step j pid c idle m ms [] h)

  turn_control :
      (m : IpcClientMsg) (ms : List IpcClientMsg) (os : List Op)
      → IsReport j c m
      → run j pid (turn ++ os) (client_with (m ∷ ms) (control_resource ∷ []) c)
        ≡ run j pid os (client_with ms (operational ∷ control_resource ∷ []) c)
  unfolding send_status
  turn_control m ms os h =
      run-some j pid take_status _ _ (
        status_step j pid c idle (m ∷ ms) control_resource []
        ∙ ap some (control_done j pid c idle (m ∷ ms) []))
      ∙ run-some j pid take_client os _ (report_step j pid c idle m ms (operational ∷ []) h)

  turn_both :
      (m : IpcClientMsg) (ms : List IpcClientMsg) (os : List Op)
      → IsReport j c m
      → run j pid (turn ++ os) (client_with (m ∷ ms) (operational ∷ control_resource ∷ []) c)
        ≡ run j pid os (client_with ms (control_resource ∷ control_resource ∷ []) c)
  unfolding send_status
  turn_both m ms os h =
      run-some j pid take_status _ _ (
        status_step j pid c idle (m ∷ ms) operational (control_resource ∷ [])
        ∙ ap some (operational_done j pid c idle (m ∷ ms) (control_resource ∷ [])))
      ∙ run-some j pid take_client os _ (report_step j pid c idle m ms (control_resource ∷ []) h)

  -- The event loop has sent on the full channel.
  abbrev stopped : List IpcClientMsg → Controll
  stopped ms = record (client_with ms (control_resource ∷ operational ∷ []) c) { stuck = true }

  turn_full :
      (m : IpcClientMsg) (ms : List IpcClientMsg) (os : List Op)
      → IsReport j c m
      → run j pid (turn ++ os) (client_with (m ∷ ms) (control_resource ∷ control_resource ∷ []) c)
        ≡ run j pid os (stopped ms)
  unfolding send_status
  turn_full m ms os h =
      run-some j pid take_status _ _ (
        status_step j pid c idle (m ∷ ms) control_resource (control_resource ∷ [])
        ∙ ap some (control_done j pid c idle (m ∷ ms) (control_resource ∷ [])))
      ∙ run-some j pid take_client os _
          (report_step j pid c idle m ms (control_resource ∷ operational ∷ []) h)

  burst :
      (m₁ m₂ m₃ m₄ : IpcClientMsg) (ms : List IpcClientMsg) (os : List Op)
      → IsReport j c m₁
      → IsReport j c m₂
      → IsReport j c m₃
      → IsReport j c m₄
      → run j pid
          (turn ++ (turn ++ (turn ++ (turn ++ os))))
          (client_with (m₁ ∷ m₂ ∷ m₃ ∷ m₄ ∷ ms) [] c)
        ≡ run j pid os (stopped ms)
  burst m₁ m₂ m₃ m₄ ms os h₁ h₂ h₃ h₄ =
      turn_empty m₁ _ _ h₁ ∙ turn_control m₂ _ _ h₂ ∙ turn_both m₃ _ _ h₃ ∙ turn_full m₄ ms os h₄

-- The event loop waits for room on `Status_ch`, from which nobody else receives.
record IsStuck (c : Controll) : Type 0 where
  stuck : c.stuck ≡ true
  free : c.waiting ≡ false
  full : status_cap ≤ length c.status_ch

loop-IsStuck :
    (j : Json) (pid : ℤ) (o : Op) (c d : Controll)
    → IsStuck c
    → loop j pid o c ≡ some d
    → IsStuck d
      × (d.calls ≡ c.calls)
      × (d.step ≡ c.step)
      × (d.status ≡ c.status)
      × (d.status_ch ≡ c.status_ch)
unfolding loop loop_step send_recv_return
loop-IsStuck j pid boot c d v e = ground (arith, v, e)
loop-IsStuck j pid take_status c d v e = ground (arith, v, e)
loop-IsStuck j pid take_client c d v e = ground (arith, v, e)
loop-IsStuck j pid (incoming m) c d v e = ground (arith, v, e)
loop-IsStuck j pid (returns m) c d v e = ground (arith, v, e)
loop-IsStuck j pid (confchg id) c d v e = ground (arith, v, e)
loop-IsStuck j pid (deliver id) c d v e = ground (arith, v, e)
loop-IsStuck j pid (totemchg id) c d v e = ground (arith, v, e)
loop-IsStuck j pid (reads b) c d v e = ground (arith, v, e)

run-IsStuck :
    (j : Json) (pid : ℤ) (os : List Op) (c : Controll)
    → IsStuck c
    → let d = run j pid os c in
      (d.stuck ≡ true)
      × (d.calls ≡ c.calls)
      × (d.step ≡ c.step)
      × (d.status ≡ c.status)
      × (d.status_ch ≡ c.status_ch)
unfolding run
run-IsStuck j pid [] c v = (v.stuck, refl, refl, refl, refl)
run-IsStuck j pid (o ∷ os) c v = elim (Option-cases (loop j pid o c)) [
  | inl idle ↦ rw (idle, run) (run-IsStuck j pid os c v)
  | inr (d, went) ↦
      let (w, calls, step, status, channel) = loop-IsStuck j pid o c d v went in
      let (stuck, calls', step', status', channel') = run-IsStuck j pid os d w in
      rw (went, run) (stuck, calls' ∙ calls, step' ∙ step, status' ∙ status, channel' ∙ channel)
]

-- Once its two requests are done and its node is known, four messages from the resource manager,
-- each a hello or a result, that wait together make the controller stop for ever: each brings two
-- values onto `Status_ch`, a turn of the poll loop takes one, and in the fourth turn the loop sends
-- on the full channel that only it receives from. Whatever comes behind that, it stays there: no
-- status is taken or set, no call is made, and the plan does not go on.
pub report_burst_blocks :
    (j : Json) (pid : ℤ) (c : Controll) (m₁ m₂ m₃ m₄ : IpcClientMsg) (ms : List IpcClientMsg)
    (os : List Op)
    → 3 ≤ c.step
    → c.nodeid ≢ 0
    → c.waiting ≡ false
    → c.stuck ≡ false
    → c.status_ch ≡ []
    → c.rman_connect.ipcrecv_ch ≡ m₁ ∷ m₂ ∷ m₃ ∷ m₄ ∷ ms
    → IsReport j c m₁
    → IsReport j c m₂
    → IsReport j c m₃
    → IsReport j c m₄
    → let d = run j pid (turn ++ (turn ++ (turn ++ (turn ++ os)))) c in
      (d.stuck ≡ true)
      × (d.calls ≡ c.calls)
      × (d.step ≡ c.step)
      × (d.status ≡ c.status)
      × (d.status_ch ≡ control_resource ∷ operational ∷ [])
report_burst_blocks j pid c m₁ m₂ m₃ m₄ ms os done known free going none_there there h₁ h₂ h₃ h₄ =
    let idle : IsIdle c = record { done = done; known = known; free = free; going = going } in
    let same : c ≡ client_with (m₁ ∷ m₂ ∷ m₃ ∷ m₄ ∷ ms) [] c =
      ap (λ q. client_with q c.status_ch c) there
      ∙ ap (λ vs. client_with (m₁ ∷ m₂ ∷ m₃ ∷ m₄ ∷ ms) vs c) none_there in
    let s = stopped j pid c idle ms in
    let went =
      ap (run j pid (turn ++ (turn ++ (turn ++ (turn ++ os))))) same
      ∙ burst j pid c idle m₁ m₂ m₃ m₄ ms os h₁ h₂ h₃ h₄ in
    let (stuck, calls, step, status, channel) =
      run-IsStuck j pid os s (record { stuck = refl; free = free; full = omega arith }) in
    (
      ap (λ (d : Controll). d.stuck) went ∙ stuck,
      ap (λ (d : Controll). d.calls) went ∙ calls,
      ap (λ (d : Controll). d.step) went ∙ step,
      ap (λ (d : Controll). d.status) went ∙ status,
      ap (λ (d : Controll). d.status_ch) went ∙ channel,
    )
