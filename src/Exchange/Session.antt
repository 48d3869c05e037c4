-- ===== src/Exchange/Session.antt =====
-- The controller and the resource manager together, from their start: the three calls that
-- controller/ makes on ipcc/, each with its way through ipcs/ and rmanager/ and back.
use go_test_cluster.Prelude.{
  ℕ, ◌≤◌, ◌≡◌, ◌≢◌, refl, ap, ◌∙◌, Bool, true, false, List, [], ◌∷◌, ◌++◌, some, length, int_key,
  nat_eq,
}
use go_test_cluster.Prelude.Int.{ℤ, is_negative}
use go_test_cluster.Prelude.Text.{Bytes, bytes_eq}
use go_test_cluster.Prelude.Dict.{lookup, insert, delete}
use go_test_cluster.Consts.{buff_max}
use go_test_cluster.Message.{
  MessageHeader, MessageHello, MessageResourceControllResponse, IsHelloCoded, IsRequestCoded,
  IsResponseCoded,
}
use go_test_cluster.Ipcc.{IpcClientMsg, Client, Op, get_seqno, contents}
use go_test_cluster.Ipcc as Ipcc
use go_test_cluster.Ipcc.Exchange as Call
use go_test_cluster.Ipcc.Exchange.{
  exchange, exchange-returned, exchange_returns, returned, returned-IsIdle,
}
use go_test_cluster.Ipcc.Greeting.{greeting, greeted, greeting-greeted, greeted-IsIdle}
use go_test_cluster.Ipcs.{wrote}
use go_test_cluster.Chhandler.{Loop}
use go_test_cluster.Rmanager.Exec.{Request, new}
use go_test_cluster.Rmanager.Handlers.{Host, hello_response}
use go_test_cluster.Rmanager.Process.{Process, blocked}
use go_test_cluster.Rmanager.Process as Process
use go_test_cluster.Rmanager.Way.{IsWaiting}
use go_test_cluster.Rmanager.Session.{IsSession, session, session_answered}
use go_test_cluster.Controller.Control.{
  hello_request, start_request, monitor_request, send_async, send_sync, init,
}
use go_test_cluster.Controller.Control as Control
use go_test_cluster.Controller.Plan.{course, plan_completes}
use go_test_cluster.Exchange.Parts.{
  monitor_call, monitor_asked, monitor_response, emptied, first_desk, first_loop,
}
use go_test_cluster.Exchange.{start_call, start_asked, start_response}

module _ (h : Host) (own : ℤ) (con : ℕ) (pid₁ pid₂ : ℤ) (ok : Bool) where
  abbrev pub hello_answer : MessageHello
  hello_answer = hello_response h.pid (hello_request own).header

  abbrev pub start_answer : MessageResourceControllResponse
  start_answer = start_response h 1 pid₁ ok

  abbrev pub monitor_answer : MessageResourceControllResponse
  monitor_answer = monitor_response h 2 pid₂

  -- What the codec has to do: carry these six messages, the answers in BUFF_MAX bytes.
  pub record IsCarried : Type 0 where
    pub hello : IsHelloCoded h.json (hello_request own)
    pub start : IsRequestCoded h.json (start_request 1)
    pub monitor : IsRequestCoded h.json (monitor_request 2)
    pub hello_back : IsHelloCoded h.json hello_answer
    pub start_back : IsResponseCoded h.json start_answer
    pub monitor_back : IsResponseCoded h.json monitor_answer
    pub fits₀ : length (h.json.marshal_hello hello_answer) ≤ buff_max
    pub fits₁ : length (h.json.marshal_response start_answer) ≤ buff_max
    pub fits₂ : length (h.json.marshal_response monitor_answer) ≤ buff_max

  -- The message for the event loop that arrives as these bytes, with this header.
  abbrev pub message_of : MessageHeader → Bytes → IpcClientMsg
  message_of x b = record { head = x; all = length b }

  -- The three answers, as bytes and as messages for the event loop.
  abbrev pub b₀ : Bytes
  b₀ = h.json.marshal_hello hello_answer

  abbrev pub b₁ : Bytes
  b₁ = h.json.marshal_response start_answer

  abbrev pub b₂ : Bytes
  b₂ = h.json.marshal_response monitor_answer

  abbrev pub m₀ : IpcClientMsg
  m₀ = message_of hello_answer.header b₀

  abbrev pub m₁ : IpcClientMsg
  m₁ = message_of start_answer.header b₁

  abbrev pub m₂ : IpcClientMsg
  m₂ = message_of monitor_answer.header b₂

  -- The client after each of the three calls.
  abbrev pub after_hello : Client
  after_hello =
      Ipcc.run h.json
        (greeting (h.json.marshal_hello (hello_request own)) (h.json.marshal_hello hello_answer))
        Ipcc.new

  abbrev pub after_start : Client
  after_start =
      Ipcc.run h.json
        (exchange (λ n. h.json.marshal_request (start_request n))
          (h.json.marshal_response start_answer) 0)
        (emptied after_hello)

  abbrev pub after_monitor : Client
  after_monitor =
      Ipcc.run h.json
        (exchange (λ n. h.json.marshal_request (monitor_request n))
          (h.json.marshal_response monitor_answer) 1)
        (emptied after_start)

  -- The resource manager after the three messages.
  abbrev pub manager : Loop Process
  manager =
      Process.run h
        (session h con (hello_request own) (start_request 1) (monitor_request 2) 0 pid₁ pid₂ ok)
        first_loop

  module _ (k : IsCarried) where
    new-IsIdle : Call.IsIdle Ipcc.new
    unfolding Ipcc.new
    new-IsIdle = record {
      no_call = refl;
      no_write = refl;
      no_slice = refl;
      listening = refl;
      no_read = refl;
      no_reply = refl;
      no_message = refl;
    }

    abbrev c₀ : Client
    c₀ =
        greeted h.json (h.json.marshal_hello (hello_request own))
          (h.json.marshal_hello hello_answer) Ipcc.new new-IsIdle k.fits₀

    said : after_hello ≡ c₀
    unfolding Ipcc.new lookup
    said = greeting-greeted h.json _ _ Ipcc.new new-IsIdle k.fits₀ refl

    idle₀ : Call.IsIdle (emptied c₀)
    idle₀ = greeted-IsIdle h.json _ _ Ipcc.new new-IsIdle k.fits₀

    start_of : ℕ → Bytes
    start_of n = h.json.marshal_request (start_request n)

    monitor_of : ℕ → Bytes
    monitor_of n = h.json.marshal_request (monitor_request n)

    abbrev c₁ : Client
    c₁ = returned h.json start_of (emptied c₀) idle₀ (h.json.marshal_response start_answer) k.fits₁

    started : after_start ≡ c₁
    unfolding Ipcc.new lookup get_seqno start_of
    started =
        ap
          (λ (c : Client).
            Ipcc.run h.json (exchange start_of (h.json.marshal_response start_answer) 0)
              (emptied c))
          said
        ∙ exchange-returned h.json start_of (emptied c₀) idle₀
            (h.json.marshal_response start_answer) k.fits₁ refl
            (ap (λ (x : MessageHeader). x.seq_no) k.start_back.common)

    idle₁ : Call.IsIdle (emptied c₁)
    idle₁ = returned-IsIdle h.json start_of (emptied c₀) idle₀ _ k.fits₁

    abbrev c₂ : Client
    c₂ =
        returned h.json monitor_of (emptied c₁) idle₁ (h.json.marshal_response monitor_answer)
          k.fits₂

    monitored : after_monitor ≡ c₂
    unfolding Ipcc.new lookup insert delete get_seqno monitor_of
    monitored =
        ap
          (λ (c : Client).
            Ipcc.run h.json (exchange monitor_of (h.json.marshal_response monitor_answer) 1)
              (emptied c))
          started
        ∙ exchange-returned h.json monitor_of (emptied c₁) idle₁
            (h.json.marshal_response monitor_answer) k.fits₂ refl
            (ap (λ (x : MessageHeader). x.seq_no) k.monitor_back.common)

    -- What the two parts agree on.
    agreed :
        IsSession h
          (hello_request own)
          (start_request 1)
          (monitor_request 2)
          (start_call 1)
          (monitor_call 2)
    unfolding bytes_eq
    agreed = record {
      hello_coded = k.hello;
      hello_kind = refl;
      own = refl;
      first = record { codec = k.start; kind = refl; asked = start_asked 1 };
      second = record { codec = k.monitor; kind = refl; asked = monitor_asked 2 };
      once = refl;
      no_stop = refl;
      monitors = record { named = refl; repeated = refl };
      same = refl;
    }

    free_manager : IsWaiting new first_desk first_loop
    unfolding new
    free_manager = record {
      quiet = refl;
      going = refl;
      idle = record { alive = refl; free = refl; drained = refl; older = tt; earlier = tt };
      empty = refl;
      open_desk = refl;
    }

  -- The plan of the controller is carried out from end to end, by both processes. Let both be at
  -- their start, the codec carry the six messages, every write on the controller's connection
  -- succeed, the agents get a process, and Corosync give a node id that is not 0. The socket client is
  -- called with the hello, the start request and the monitor request, its three messages are on the
  -- socket in this order, and each call brings the event loop one message: the answer to it; those of
  -- `SendRecv` show the result of their request, CL_OK or CL_ERROR as the start agent ended, and CL_OK
  -- for the first round of the monitor. The resource manager has written these three answers and
  -- nothing else, its event loop is free, and the last timer that it has armed is for the next round
  -- of the monitor. The event loop of the controller, which gets these three messages, makes exactly
  -- these three calls, and is then at the end of its plan and does not wait.
  pub plan_answered :
      (id : ℕ)
      → IsCarried
      → ((b : Bytes) → h.write con b ≡ true)
      → is_negative pid₁ ≡ false
      → is_negative pid₂ ≡ false
      → id ≢ 0
      → let c = Control.run h.json own (course id m₀ b₁ m₁ b₂ m₂) init in
        (after_monitor.written
          ≡ h.json.marshal_hello (hello_request own)
            ∷ h.json.marshal_request (start_request 1)
            ∷ h.json.marshal_request (monitor_request 2)
            ∷ [])
        × (after_hello.ipcrecv_ch ≡ m₀ ∷ [])
        × (after_start.ipcrecv_ch ≡ m₁ ∷ [])
        × (after_monitor.ipcrecv_ch ≡ m₂ ∷ [])
        × (h.json.unmarshal_response (contents (length b₁) after_start) ≡ some start_answer)
        × (h.json.unmarshal_response (contents (length b₂) after_monitor) ≡ some monitor_answer)
        × (manager.state.desk.server.net ≡ wrote con b₀ ∷ wrote con b₁ ∷ wrote con b₂ ∷ [])
        × (blocked manager.state ≡ false)
        × ((ts : List (ℕ × Request)) × (t : ℕ) × (manager.state.rman.armed
              ≡ ts ++ (t, monitor_call 2) ∷ []))
        × (c.calls
            ≡ send_async (hello_request own)
              ∷ send_sync (start_request 1)
              ∷ send_sync (monitor_request 2)
              ∷ [])
        × (c.step ≡ 3)
        × (c.waiting ≡ false)
  unfolding Ipcc.new get_seqno start_of monitor_of new
  plan_answered id k open_con forked₁ forked₂ known =
      let (net, free, place, timer) =
        session_answered h con (hello_request own) (start_request 1) (monitor_request 2)
          (start_call 1) (monitor_call 2) pid₁ pid₂ ok new first_desk first_loop (agreed k)
          (free_manager k) open_con forked₁ forked₂ in
      let (calls, step, waits, going, quiet, empty) =
        plan_completes h.json own id m₀ b₁ m₁ b₂ m₂ known refl
          (record {
            kind = refl;
            all = refl;
            fits = k.fits₁;
            decoded = (start_answer, k.start_back.whole);
          })
          (record {
            kind = refl;
            all = refl;
            fits = k.fits₂;
            decoded = (monitor_answer, k.monitor_back.whole);
          }) in
      (
        ap (λ (c : Client). c.written) (monitored k),
        ap (λ (c : Client). c.ipcrecv_ch) (said k)
            ∙ ap (λ x. message_of x b₀ ∷ []) k.hello_back.common,
        ap (λ (c : Client). c.ipcrecv_ch) (started k)
            ∙ ap (λ x. message_of x b₁ ∷ []) k.start_back.common,
        ap (λ (c : Client). c.ipcrecv_ch) (monitored k)
            ∙ ap (λ x. message_of x b₂ ∷ []) k.monitor_back.common,
        ap (λ (c : Client). h.json.unmarshal_response (contents (length b₁) c)) (started k)
            ∙ ap h.json.unmarshal_response
                (Call.shown h.json (start_of k) (emptied (c₀ k)) (idle₀ k) b₁ k.fits₁)
            ∙ k.start_back.whole,
        ap (λ (c : Client). h.json.unmarshal_response (contents (length b₂) c)) (monitored k)
            ∙ ap h.json.unmarshal_response
                (Call.shown h.json (monitor_of k) (emptied (c₁ k)) (idle₁ k) b₂ k.fits₂)
            ∙ k.monitor_back.whole,
        net,
        free,
        timer,
        calls,
        step,
        waits,
      )
