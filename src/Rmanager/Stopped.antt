-- ===== src/Rmanager/Stopped.antt =====
-- rmanager/: a stopped resource, and the three slots of the event loop.
use go_test_cluster.Prelude.{
  ℕ, ◌≡◌, subst, true, false, List, [], ◌∷◌, ◌++◌, some, arith, All, Option-cases, List-cases, inl,
  inr,
}
use go_test_cluster.Prelude.Int.{ℤ, int_eq}
use go_test_cluster.Message.{MessageResourceControllRequest, parameters_to_string}
use go_test_cluster.Ipcs.{Received, client, text}
use go_test_cluster.Chhandler.{ChannelHandlerData, set_channel_handler}
use go_test_cluster.Rmanager.Exec.{Request, Rman, exec_rsc_op}
use go_test_cluster.Rmanager.Step.{request, deliver}
use go_test_cluster.Rmanager.Quiet.{IsQuiet, IsOther, step-IsQuiet}
use go_test_cluster.Rmanager.Handlers.{
  Desk, Host, request_of, process_rsc_op_message, process_ipc_srv_message, process_rsc_op_event,
  message_hello_handler, message_resource_handler,
}
use go_test_cluster.Rmanager.Process.{
  Process, blocked, server_slot, message_slot, event_slot, channel_list,
}
use go_test_cluster.Rmanager.Refine.{free-idle, request-step, deliver-step}

pub All-snoc :
    {A : Type 0} (P : A → Type 0) (xs : List A) (x : A) → All P xs → P x → All P (xs ++ x ∷ [])
All-snoc P [] x h p = (p, tt)
All-snoc P (y ∷ ys) x h p = (h.0, All-snoc P ys x h.1 p)

request_of-rscid :
    (v : MessageResourceControllRequest) (q : Request) → request_of v ≡ some q → q.rscid ≡ v.rscid
unfolding request_of
request_of-rscid v q e = elim (Option-cases (parameters_to_string v.param_len v.parameters)) [
  | inl broken ↦ absurd (ground (arith, broken, e))
  | inr (ps, fine) ↦ ground (arith, fine, e)
]

-- A request for another resource.
abbrev pub IsElse : ℤ → MessageResourceControllRequest → Type 0
IsElse rscid v = int_eq v.rscid rscid ≡ false

-- What a connection brings is no request for the resource.
abbrev pub IsAside : Host → ℤ → Received → Type 0
IsAside h rscid (client c) =
    (v : MessageResourceControllRequest)
    → h.json.unmarshal_request c.message ≡ some v
    → IsElse rscid v
IsAside h rscid (text t) = Unit

module _ (h : Host) (rscid : ℤ) (newest : ℕ) where
  -- The resource is stopped, and no request for it is on its way.
  pub record IsStopped (p : Process) : Type 0 where
    pub quiet : IsQuiet rscid newest p.rman
    pub requests : All (IsElse rscid) p.desk.requests
    pub srv : All (IsAside h rscid) p.srv

  process-IsElse :
      (m : Received) (d : Desk)
      → IsAside h rscid m
      → All (IsElse rscid) d.requests
      → All (IsElse rscid) (process_ipc_srv_message h m d).requests
  unfolding process_ipc_srv_message message_hello_handler message_resource_handler
  process-IsElse (text t) d a v = v
  process-IsElse (client c) d a v = elim (Option-cases (h.json.unmarshal_request c.message)) [
    | inl broken ↦ ground (arith, broken, v)
    | inr (w, decoded) ↦
        ground (arith, decoded, v, All-snoc (IsElse rscid) d.requests w v (a w decoded))
  ]

  -- A slot keeps the resource stopped.
  abbrev pub IsKeeper : ChannelHandlerData Process → Type 0
  IsKeeper f = (p d : Process) → blocked p ≡ false → f p ≡ some d → IsStopped p → IsStopped d

  server-IsKeeper : IsKeeper (server_slot h)
  unfolding server_slot
  server-IsKeeper p d free e v = elim (List-cases p.srv) [
    | inl empty ↦ absurd (ground (arith, empty, e))
    | inr (m, q, held) ↦
        let aside_all : All (IsAside h rscid) (m ∷ q) = subst (All (IsAside h rscid)) held v.srv in
        let c : Process = record p { srv = q; desk = process_ipc_srv_message h m p.desk } in
        let same : c ≡ d = ground (arith, held, e) in
        subst IsStopped same (record {
          quiet = v.quiet;
          requests = process-IsElse m p.desk aside_all.0 v.requests;
          srv = aside_all.1;
        })
  ]

  request-IsOther :
      (w : MessageResourceControllRequest) (q : Request)
      → request_of w ≡ some q
      → IsElse rscid w
      → IsOther rscid newest (request q)
  request-IsOther w q asked other = ground (arith, request_of-rscid w q asked, other)

  message-IsKeeper : IsKeeper (message_slot h)
  unfolding message_slot process_rsc_op_message
  message-IsKeeper p d free e v = elim (List-cases p.desk.requests) [
    | inl empty ↦ absurd (ground (arith, empty, e))
    | inr (w, ws, held) ↦
        let others : All (IsElse rscid) (w ∷ ws) = subst (All (IsElse rscid)) held v.requests in
        let desk : Desk = record p.desk { requests = ws } in
        elim (Option-cases (request_of w)) [
          | inl broken ↦
              let c : Process = record p { desk = desk; rman = record p.rman { crashed = true } } in
              let same : c ≡ d = ground (arith, held, broken, e) in
              subst IsStopped same (record {
                quiet = record {
                  stopped = v.quiet.stopped;
                  harmless = v.quiet.harmless;
                  due = v.quiet.due;
                };
                requests = others.1;
                srv = v.srv;
              })
          | inr (q, asked) ↦
              let (lives, idle) = free-idle p free in
              let c : Process = record p { desk = desk; rman = exec_rsc_op q p.rman } in
              let same : c ≡ d = ground (arith, held, asked, e) in
              subst IsStopped same (record {
                quiet =
                    step-IsQuiet rscid newest (request q) p.rman
                      (request-IsOther w q asked others.0) (request-step q p.rman lives idle)
                      v.quiet;
                requests = others.1;
                srv = v.srv;
              })
        ]
  ]

  event-IsKeeper : IsKeeper (event_slot h)
  unfolding event_slot process_rsc_op_event
  event-IsKeeper p d free e v = elim (List-cases p.rman.rsc_op_ch) [
    | inl empty ↦ absurd (ground (arith, empty, e))
    | inr (r, q, held) ↦
        let (lives, idle) = free-idle p free in
        let m : Rman = record p.rman { rsc_op_ch = q; sent = p.rman.sent ++ r ∷ [] } in
        let c : Process = record p { rman = m; desk = process_rsc_op_event h r p.desk } in
        let same : c ≡ d = ground (arith, held, e) in
        subst IsStopped same (record {
          quiet =
              step-IsQuiet rscid newest deliver p.rman tt (deliver-step p.rman lives idle held)
                v.quiet;
          requests = v.requests;
          srv = v.srv;
        })
  ]

  pub slots-IsKeeper : All IsKeeper (channel_list h)
  unfolding channel_list set_channel_handler
  slots-IsKeeper = (server-IsKeeper, (message-IsKeeper, (event-IsKeeper, tt)))
