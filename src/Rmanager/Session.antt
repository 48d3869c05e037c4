-- ===== src/Rmanager/Session.antt =====
-- rmanager/: the messages of one client, one after the other: its hello, a request to start a
-- resource, and a request to monitor it.
use go_test_cluster.Prelude.{
  ℕ, ◌+◌, ◌≡◌, refl, ap, sym, subst, ◌∙◌, Bool, true, false, List, [], ◌∷◌, ◌++◌, none, some, arith,
  int_key, append_assoc,
}
use go_test_cluster.Prelude.Int.{ℤ, pos, int_eq, is_negative}
use go_test_cluster.Prelude.Text.{Bytes}
use go_test_cluster.Prelude.Dict.{lookup}
use go_test_cluster.Consts.{controller_id, cl_ok}
use go_test_cluster.Message.{
  MessageHello, MessageResourceControllRequest, IsHelloCoded, message_id_hello,
}
use go_test_cluster.Ipcs.{ClientConnect, NetEvent, client, wrote, send_ipc_to_client}
use go_test_cluster.Chhandler.{Loop}
use go_test_cluster.Rmanager.Table.{Execrsc, is_stop}
use go_test_cluster.Rmanager.Exec.{Request, Rman, result}
use go_test_cluster.Rmanager.Monitor.{agent_ret}
use go_test_cluster.Rmanager.Round.{IsMonitor, again}
use go_test_cluster.Rmanager.Handlers.{
  Desk, Host, hello_response, response_of, process_rsc_op_event,
}
use go_test_cluster.Rmanager.Process.{Process, Event, blocked, run}
use go_test_cluster.Rmanager.Turns.{run-nil, at_place, process_of, free-process}
use go_test_cluster.Rmanager.Way.{Way, IsWaiting, IsAsking, service, delivered, once-Way, way-run}
use go_test_cluster.Rmanager.Followed.{IsStarted, once_over, once-IsStarted, monitor-Way}
use go_test_cluster.Rmanager.Welcome.{
  one_pass, one_pass-run, newcomer, welcome, IsWelcomed, welcome-IsWelcomed,
}

-- A desk that has written one more message on `con`.
abbrev pub wrote_on : ℕ → Bytes → Desk → Desk
wrote_on con b d = record d { server = record d.server { net = d.server.net ++ wrote con b ∷ [] } }

abbrev pub answer_of : Host → Execrsc → Bytes
answer_of h r = h.json.marshal_response (response_of h.pid r)

-- The answer to the controller, where it is registered and its connection takes it.
event-wrote :
    (h : Host) (r : Execrsc) (d : Desk) (to : ClientConnect)
    → lookup controller_id d.server.clients ≡ some to
    → h.write to.con (answer_of h r) ≡ true
    → process_rsc_op_event h r d ≡ wrote_on to.con (answer_of h r) d
unfolding process_rsc_op_event send_ipc_to_client
event-wrote h r d to registered open_con = ground (arith, registered, open_con)

-- The messages of a controller: its hello, and the requests `v₁` and `v₂`; the jobs of these are `n`
-- and the next one.
abbrev pub session :
    Host
    → ℕ
    → MessageHello
    → MessageResourceControllRequest
    → MessageResourceControllRequest
    → ℕ
    → ℤ
    → ℤ
    → Bool
    → List Event
session h con g v₁ v₂ n pid₁ pid₂ ok =
    one_pass (client (newcomer h con g))
    ++ (service h con v₁ n pid₁ ok ++ (service h con v₂ (n + 1) pid₂ true ++ []))

append_three :
    (es : List NetEvent) (a b c : NetEvent)
    → ((es ++ a ∷ []) ++ b ∷ []) ++ c ∷ [] ≡ es ++ a ∷ b ∷ c ∷ []
append_three es a b c =
    append_assoc (es ++ a ∷ []) (b ∷ []) (c ∷ []) ∙ append_assoc es (a ∷ []) (b ∷ c ∷ [])

-- A hello of the controller, a request for one run of an agent on a resource, which is no stop, and
-- an asynchronous one for the repeated monitor of that resource.
pub record IsSession (h : Host) (g : MessageHello) (v₁ v₂ : MessageResourceControllRequest)
    (q₁ q₂ : Request) : Type 0 where
  pub hello_coded : IsHelloCoded h.json g
  pub hello_kind : g.header.types ≡ message_id_hello
  pub own : g.header.source_id ≡ controller_id
  pub first : IsAsking h v₁ q₁
  pub second : IsAsking h v₂ (again q₂)
  pub once : int_eq q₁.interval (pos 0) ≡ true
  pub no_stop : is_stop q₁.op ≡ false
  pub monitors : IsMonitor q₂
  pub same : q₁.rscid ≡ q₂.rscid

module _ (h : Host) (con : ℕ) (g : MessageHello) (v₁ v₂ : MessageResourceControllRequest)
    (q₁ q₂ : Request) (pid₁ pid₂ : ℤ) (ok : Bool) (m : Rman) (d : Desk) (l : Loop Process)
    (k : IsSession h g v₁ v₂ q₁ q₂) (w : IsWaiting m d l)
    (open_con : (b : Bytes) → h.write con b ≡ true) (forked₁ : is_negative pid₁ ≡ false)
    (forked₂ : is_negative pid₂ ≡ false) where
  abbrev r₁ : Execrsc
  r₁ = result q₁ pid₁ (agent_ret ok) none (pos 0)

  abbrev r₂ : Execrsc
  r₂ = result q₂ pid₂ cl_ok none (pos 0)

  abbrev d₀ : Desk
  d₀ = welcome h con g d

  greeted : IsWelcomed h con g d d₀
  greeted = welcome-IsWelcomed h con g d k.hello_coded k.hello_kind (open_con _)

  abbrev m₁ : Rman
  m₁ = once_over q₁ pid₁ ok m k.once forked₁ w.idle

  abbrev d₁ : Desk
  d₁ = wrote_on con (answer_of h r₁) (record d₀ { requests = [] })

  begun : IsStarted q₂.rscid m₁
  begun =
      subst (λ i. IsStarted i m₁) k.same
        (once-IsStarted q₁ pid₁ ok m k.once forked₁ w.idle k.no_stop).0

  way₂ : Way (again q₂) pid₂ true r₂ m₁
  way₂ = (monitor-Way q₂ pid₂ m₁ k.monitors forked₂ begun).0

  abbrev d₂ : Desk
  d₂ = wrote_on con (answer_of h r₂) d₁

  registered : lookup controller_id d₀.server.clients ≡ some (newcomer h con g)
  registered =
      subst (λ i. lookup i d₀.server.clients ≡ some (newcomer h con g)) k.own greeted.registered

  waits₀ : IsWaiting m d₀ l
  waits₀ = record {
    quiet = w.quiet;
    going = w.going;
    idle = w.idle;
    empty = greeted.requests ∙ w.empty;
    open_desk = greeted.blocked ∙ w.open_desk;
  }

  waits₁ : IsWaiting m₁ d₁ l
  waits₁ = record {
    quiet = w.quiet;
    going = w.going;
    idle = begun.idle;
    empty = refl;
    open_desk = waits₀.open_desk;
  }

  session-run :
      run h (session h con g v₁ v₂ m.next_job pid₁ pid₂ ok) (at_place 0 (process_of m d []) l)
      ≡ at_place 0 (process_of (delivered r₂ way₂.over) d₂ []) l
  session-run =
      let next = (once-IsStarted q₁ pid₁ ok m k.once forked₁ w.idle k.no_stop).1 in
      let rest = service h con v₂ (m.next_job + 1) pid₂ true ++ [] in
      let a = at_place 0 (process_of m₁ d₁ []) l in
      one_pass-run h (client (newcomer h con g)) m d l _ w waits₀.empty waits₀.open_desk
      ∙ way-run h con v₁ q₁ pid₁ ok r₁ m d₀ l rest waits₀ k.first
          (once-Way q₁ pid₁ ok m k.once forked₁ w.idle)
      ∙ ap (λ e. run h rest (at_place 0 (process_of m₁ e []) l))
          (event-wrote h r₁ (record d₀ { requests = [] }) (newcomer h con g) registered
            (open_con _))
      ∙ ap (λ n. run h (service h con v₂ n pid₂ true ++ []) a) (sym next)
      ∙ way-run h con v₂ (again q₂) pid₂ true r₂ m₁ d₁ l [] waits₁ k.second way₂
      ∙ run-nil h _
      ∙ ap (λ e. at_place 0 (process_of (delivered r₂ way₂.over) e []) l)
          (event-wrote h r₂ d₁ (newcomer h con g) registered (open_con _))

  -- A controller that sends its hello, a request to run one agent on a resource, and an asynchronous
  -- request to repeat a monitor of that resource, finds each of them answered, in this order, on its
  -- own connection, by a resource manager that had nothing to do; nothing else is written. The first
  -- agent may end either way; the monitor's first round ends well. The event loop is then free again
  -- at the head of its list, and a timer is armed for the next round of the monitor.
  pub session_answered :
      let e =
        run h (session h con g v₁ v₂ m.next_job pid₁ pid₂ ok) (at_place 0 (process_of m d []) l) in
      (e.state.desk.server.net
        ≡ d.server.net
          ++ wrote con (h.json.marshal_hello (hello_response h.pid g.header))
            ∷ wrote con (answer_of h r₁)
            ∷ wrote con (answer_of h r₂)
            ∷ [])
      × (blocked e.state ≡ false)
      × (e.idx ≡ 0)
      × ((ts : List (ℕ × Request)) × (t : ℕ) × (e.state.rman.armed ≡ ts ++ (t, again q₂) ∷ []))
  unfolding way₂
  session_answered =
      let (ts, t, armed) = (monitor-Way q₂ pid₂ m₁ k.monitors forked₂ begun).1 in
      let hello = wrote con (h.json.marshal_hello (hello_response h.pid g.header)) in
      let joined : d₂.server.net
          ≡ d.server.net ++ hello ∷ wrote con (answer_of h r₁) ∷ wrote con (answer_of h r₂) ∷ [] =
        ap
          (λ (es : List NetEvent).
            (es ++ wrote con (answer_of h r₁) ∷ []) ++ wrote con (answer_of h r₂) ∷ [])
          greeted.answered
        ∙ append_three d.server.net hello (wrote con (answer_of h r₁))
            (wrote con (answer_of h r₂)) in
      (
        ap (λ (x : Loop Process). x.state.desk.server.net) session-run ∙ joined,
        ap (λ (x : Loop Process). blocked x.state) session-run
            ∙ free-process (delivered r₂ way₂.over) d₂ [] waits₀.open_desk way₂.alive way₂.free,
        ap (λ (x : Loop Process). x.idx) session-run,
        (ts, t, ap (λ (x : Loop Process). x.state.rman.armed) session-run ∙ armed),
      )
