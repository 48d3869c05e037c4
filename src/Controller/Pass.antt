-- ===== src/Controller/Pass.antt =====
-- controller/main.go: one pass of the event loop over the seven channels, in the order in which
-- `_initialize` and `main` set them.
use go_test_cluster.Prelude.{
  ℕ, ◌+◌, ◌≡◌, refl, sym, ap, ◌∙◌, Bool, false, List, [], ◌∷◌, ◌++◌, arith, length, map, inl, inr,
  List-cases, Option-cases,
}
use go_test_cluster.Ipcs.{Server, Received}
use go_test_cluster.Chhandler.{Loop, polls, poll_step, set_channel_handler}
use go_test_cluster.Chhandler.Pass.{serve_once, serve_all, IsFree, polls-pass}
use go_test_cluster.Corosync.Callback.{Channels}
use go_test_cluster.Controller.Clients as Clients
use go_test_cluster.Controller.Control.{
  Controll, Op, take_status, take_client, confchg, deliver, totemchg, loop, loop_step,
}
use go_test_cluster.Controller.Control as Control
use go_test_cluster.Controller.Process.{
  Process, Host, Event, status_slot, server_slot, client_slot, confchg_slot, deliver_slot,
  totemchg_slot, quorumchg_slot, channel_list, blocked, step, run,
}

-- The rest of a channel from which one value was taken, if there was one, and how many were.
abbrev pub rest {ℓ} : {A : Type ℓ} → List A → List A
rest [] = []
rest (x ∷ xs) = xs

abbrev pub taken {ℓ} : {A : Type ℓ} → List A → ℕ
taken [] = 0
taken (x ∷ xs) = 1

-- A step if a value waits.
abbrev pub on_value {ℓ} : {A : Type ℓ} → List A → Op → List Op
on_value [] o = []
on_value (x ∷ xs) o = o ∷ []

module _ (h : Host) where
  control_run-append :
      (os ps : List Op) (c : Controll)
      → Control.run h.json h.pid (os ++ ps) c
        ≡ Control.run h.json h.pid ps (Control.run h.json h.pid os c)
  unfolding Control.run
  control_run-append [] ps c = refl
  control_run-append (o ∷ os) ps c = elim (Option-cases (loop h.json h.pid o c)) [
    | inl e ↦ rw (e, Control.run) (control_run-append os ps c)
    | inr (d, e) ↦ rw (e, Control.run) (control_run-append os ps d)
  ]

  -- The steps of the control state that one pass over these channels makes; `n` callbacks have
  -- asked for the local id before.
  abbrev pub pass_ops : ℕ → Channels → List Op
  pass_ops n c =
      (take_status ∷ take_client ∷ [])
      ++ (on_value c.coro_cfg_chan (confchg (h.local_id n))
          ++ (on_value c.coro_deliv_chan (deliver (h.local_id (n + taken c.coro_cfg_chan)))
              ++ on_value c.coro_totem_chan
                  (totemchg (h.local_id (n + taken c.coro_cfg_chan + taken c.coro_deliv_chan)))))

  -- The socket server, when the handler has got the message that waits.
  abbrev pub told : List Received → Server → Server
  told [] s = s
  told (m ∷ q) s = Clients.process_ipc_srv_message h.json h.write h.pid m s

  status-served :
      (p : Process)
      → blocked p ≡ false
      → serve_once (status_slot h) p
        ≡ record p { control = Control.run h.json h.pid (take_status ∷ []) p.control }
  unfolding blocked status_slot Control.run loop loop_step
  status-served p free = elim (List-cases p.control.status_ch) [
    | inl empty ↦ ground (arith, free, empty)
    | inr (v, q, held) ↦ ground (arith, free, held)
  ]

  server-served :
      (p : Process)
      → serve_once (server_slot h) p ≡ record p { server = told p.srv p.server; srv = rest p.srv }
  unfolding server_slot
  server-served p = elim (List-cases p.srv) [
    | inl empty ↦ ground (arith, empty)
    | inr (v, q, held) ↦ ground (arith, held)
  ]

  client-served :
      (p : Process)
      → blocked p ≡ false
      → serve_once (client_slot h) p
        ≡ record p { control = Control.run h.json h.pid (take_client ∷ []) p.control }
  unfolding blocked client_slot Control.run loop loop_step
  client-served p free = elim (List-cases p.control.rman_connect.ipcrecv_ch) [
    | inl empty ↦ ground (arith, free, empty)
    | inr (v, q, held) ↦ ground (arith, free, held)
  ]

  confchg-served :
      (p : Process)
      → blocked p ≡ false
      → serve_once (confchg_slot h) p ≡ record p {
        control =
            Control.run h.json h.pid
              (on_value p.coro.coro_cfg_chan (confchg (h.local_id p.asked)))
              p.control;
        coro = record p.coro { coro_cfg_chan = rest p.coro.coro_cfg_chan };
        asked = p.asked + taken p.coro.coro_cfg_chan;
      }
  unfolding blocked confchg_slot Control.run loop loop_step
  confchg-served p free = elim (List-cases p.coro.coro_cfg_chan) [
    | inl empty ↦ ground (arith, free, empty)
    | inr (v, q, held) ↦ ground (arith, free, held)
  ]

  deliver-served :
      (p : Process)
      → blocked p ≡ false
      → serve_once (deliver_slot h) p ≡ record p {
        control =
            Control.run h.json h.pid
              (on_value p.coro.coro_deliv_chan (deliver (h.local_id p.asked)))
              p.control;
        coro = record p.coro { coro_deliv_chan = rest p.coro.coro_deliv_chan };
        asked = p.asked + taken p.coro.coro_deliv_chan;
      }
  unfolding blocked deliver_slot Control.run loop loop_step
  deliver-served p free = elim (List-cases p.coro.coro_deliv_chan) [
    | inl empty ↦ ground (arith, free, empty)
    | inr (v, q, held) ↦ ground (arith, free, held)
  ]

  totemchg-served :
      (p : Process)
      → blocked p ≡ false
      → serve_once (totemchg_slot h) p ≡ record p {
        control =
            Control.run h.json h.pid
              (on_value p.coro.coro_totem_chan (totemchg (h.local_id p.asked)))
              p.control;
        coro = record p.coro { coro_totem_chan = rest p.coro.coro_totem_chan };
        asked = p.asked + taken p.coro.coro_totem_chan;
      }
  unfolding blocked totemchg_slot Control.run loop loop_step
  totemchg-served p free = elim (List-cases p.coro.coro_totem_chan) [
    | inl empty ↦ ground (arith, free, empty)
    | inr (v, q, held) ↦ ground (arith, free, held)
  ]

  quorumchg-served :
      (p : Process)
      → serve_once (quorumchg_slot h) p
        ≡ record p { coro = record p.coro { coro_quorum_chan = rest p.coro.coro_quorum_chan } }
  unfolding quorumchg_slot
  quorumchg-served p = elim (List-cases p.coro.coro_quorum_chan) [
    | inl empty ↦ ground (arith, empty)
    | inr (v, q, held) ↦ ground (arith, held)
  ]

  turns-polls :
      (bs : List Bool) (l : Loop Process)
      → run h (map Event.turn bs) l ≡ polls blocked (channel_list h) bs l
  unfolding run polls step
  turns-polls [] l = refl
  turns-polls (b ∷ bs) l = elim (Option-cases (poll_step blocked (channel_list h) b l)) [
    | inl idle ↦ rw (idle, run, polls, step) (turns-polls bs l)
    | inr (d, went) ↦ rw (went, run, polls, step) (turns-polls bs d)
  ]

  -- The state of the process behind a pass.
  abbrev pub passed : Process → Process
  passed p = record {
    control = Control.run h.json h.pid (pass_ops p.asked p.coro) p.control;
    server = told p.srv p.server;
    srv = rest p.srv;
    coro = record {
      coro_cfg_chan = rest p.coro.coro_cfg_chan;
      coro_deliv_chan = rest p.coro.coro_deliv_chan;
      coro_totem_chan = rest p.coro.coro_totem_chan;
      coro_quorum_chan = rest p.coro.coro_quorum_chan;
    };
    asked =
        p.asked
        + taken p.coro.coro_cfg_chan
        + taken p.coro.coro_deliv_chan
        + taken p.coro.coro_totem_chan;
  }

  pass_ops-run :
      (n : ℕ) (k : Channels) (c : Controll)
      → Control.run h.json h.pid (pass_ops n k) c
        ≡ Control.run h.json h.pid
            (on_value k.coro_totem_chan
              (totemchg (h.local_id (n + taken k.coro_cfg_chan + taken k.coro_deliv_chan))))
            (Control.run h.json h.pid
              (on_value k.coro_deliv_chan (deliver (h.local_id (n + taken k.coro_cfg_chan))))
              (Control.run h.json h.pid (on_value k.coro_cfg_chan (confchg (h.local_id n))) (
                Control.run h.json h.pid
                  (take_client ∷ [])
                  (Control.run h.json h.pid (take_status ∷ []) c))))
  pass_ops-run n k c =
      let cs = on_value k.coro_cfg_chan (confchg (h.local_id n)) in
      let ds = on_value k.coro_deliv_chan (deliver (h.local_id (n + taken k.coro_cfg_chan))) in
      let ts =
        on_value k.coro_totem_chan
          (totemchg (h.local_id (n + taken k.coro_cfg_chan + taken k.coro_deliv_chan))) in
      let a = Control.run h.json h.pid (take_status ∷ []) c in
      let b = Control.run h.json h.pid (take_client ∷ []) a in
      control_run-append (take_status ∷ []) (take_client ∷ (cs ++ (ds ++ ts))) c
      ∙ control_run-append (take_client ∷ []) (cs ++ (ds ++ ts)) a
      ∙ control_run-append cs (ds ++ ts) b
      ∙ control_run-append ds ts (Control.run h.json h.pid cs b)

  serve_all-passed :
      (p : Process) → IsFree blocked (channel_list h) p → serve_all (channel_list h) p ≡ passed p
  unfolding channel_list set_channel_handler serve_all
  serve_all-passed p (b₁, (b₂, (b₃, (b₄, (b₅, (b₆, (b₇, end))))))) =
      let p₁ = record p { control = Control.run h.json h.pid (take_status ∷ []) p.control } in
      let e₁ : serve_once (status_slot h) p ≡ p₁ = status-served p b₁ in
      let p₂ = record p₁ { server = told p.srv p.server; srv = rest p.srv } in
      let e₂ = ap (serve_once (server_slot h)) e₁ ∙ server-served p₁ in
      let p₃ = record p₂ { control = Control.run h.json h.pid (take_client ∷ []) p₂.control } in
      let e₃ = ap (serve_once (client_slot h)) e₂ ∙ client-served p₂ (sym (ap blocked e₂) ∙ b₃) in
      let e₄ = ap (serve_once (confchg_slot h)) e₃ ∙ confchg-served p₃ (sym (ap blocked e₃) ∙ b₄) in
      let e₅ = ap (serve_once (deliver_slot h)) e₄ ∙ deliver-served _ (sym (ap blocked e₄) ∙ b₅) in
      let e₆ =
        ap (serve_once (totemchg_slot h)) e₅ ∙ totemchg-served _ (sym (ap blocked e₅) ∙ b₆) in
      ap (serve_once (quorumchg_slot h)) e₆
      ∙ quorumchg-served _
      ∙ ap (λ (c : Controll). record (passed p) { control = c })
          (sym (pass_ops-run p.asked p.coro p.control))

  -- A pass of the event loop is what its seven channels hold, and nothing else. In seven turns in
  -- which no signal comes, and no handler waits when the next channel's turn comes, the event loop
  -- takes one value from each channel that has one: the control state makes,
  -- in this order, the step for a status, that for a message of the resource manager, and those for a
  -- change of the membership, a delivered message and a change of the ring, each with the local id
  -- that is given then; the socket server handles one message of a client; a change of the quorum is
  -- only taken. The loop is at the head of its list again.
  pub pass-passed :
      (bs : List Bool) (l : Loop Process)
      → length bs ≡ 7
      → l.idx ≡ 0
      → l.signal_ch ≡ []
      → l.hung ≡ false
      → IsFree blocked (channel_list h) l.state
      → run h (map Event.turn bs) l ≡ record l { idx = 0; state = passed l.state }
  unfolding channel_list set_channel_handler
  pass-passed bs l seven at quiet going free =
      turns-polls bs l
      ∙ polls-pass blocked (channel_list h) bs l seven at quiet going free
      ∙ ap (λ (p : Process). let d : Loop Process = record l { idx = 0; state = p } in d)
          (serve_all-passed l.state free)
