-- ===== src/Rmanager/Way.antt =====
-- rmanager/: the way of a request through the whole resource manager, whatever it asks for: the event
-- loop takes it in, its agent runs beside the loop, and the loop takes the result.
use go_test_cluster.Prelude.{
  ℕ, ◌≡◌, refl, ap, ◌∙◌, Bool, true, false, List, [], ◌∷◌, ◌++◌, none, some, int_key,
}
use go_test_cluster.Prelude.Int.{ℤ, pos, int_eq, is_negative}
use go_test_cluster.Message.{MessageResourceControllRequest, IsRequestCoded, message_id_resource}
use go_test_cluster.Ipcs.{client}
use go_test_cluster.Chhandler.{Loop}
use go_test_cluster.Rmanager.Table.{Execrsc}
use go_test_cluster.Rmanager.Exec.{Request, Rman, result, exec_rsc_op}
use go_test_cluster.Rmanager.Step.{start, exits, report, end_job}
use go_test_cluster.Rmanager.Step as Step
use go_test_cluster.Rmanager.Taken.{IsIdle}
use go_test_cluster.Rmanager.Monitor.{agent_ret}
use go_test_cluster.Rmanager.OneShot.{one_shot, answered_to}
use go_test_cluster.Rmanager.Handlers.{Desk, Host, request_of, process_rsc_op_event}
use go_test_cluster.Rmanager.Process.{Process, Event, turn, accept, aside, step, run}
use go_test_cluster.Rmanager.Turns.{
  server-turn, message-turn, event-turn, run-step, at_place, process_of, server-served,
  message-served, event-served, accept-step, aside-step, free-process, request-taken,
  answered_to-free,
}

-- What happens to a request `v`: it comes on the connection `con`, two turns of
-- the event loop take it in, its agent runs beside the loop, and a third turn takes the result.
abbrev pub service : Host → ℕ → MessageResourceControllRequest → ℕ → ℤ → Bool → List Event
service h con v n pid ok =
    accept (client (record { con = con; message = h.json.marshal_request v }))
    ∷ turn false
    ∷ turn false
    ∷ aside (start n (some pid))
    ∷ aside (exits n ok)
    ∷ aside (report n)
    ∷ turn false
    ∷ []

-- The resource manager has nothing to do, and its event loop is free at the head of its list.
pub record IsWaiting (m : Rman) (d : Desk) (l : Loop Process) : Type 0 where
  pub quiet : l.signal_ch ≡ []
  pub going : l.hung ≡ false
  pub idle : IsIdle m
  pub empty : d.requests ≡ []
  pub open_desk : d.blocked ≡ false

-- The states on the way of a request up to the report of its result `r`, which is then the only one.
pub record Way (q : Request) (pid : ℤ) (ok : Bool) (r : Execrsc) (m : Rman) : Type 0 where
  pub taken : Rman
  pub started : Rman
  pub exited : Rman
  pub over : Rman
  pub executes : exec_rsc_op q m ≡ taken
  pub starts : Step.step (start m.next_job (some pid)) taken ≡ some started
  pub exits_ok : Step.step (exits m.next_job ok) started ≡ some exited
  pub reports : Step.step (report m.next_job) exited ≡ some over
  pub alive : over.crashed ≡ false
  pub free : over.busy ≡ none
  pub held : over.rsc_op_ch ≡ r ∷ []

-- The event loop has taken the result.
abbrev pub delivered : Execrsc → Rman → Rman
delivered r m = record m { rsc_op_ch = []; sent = m.sent ++ r ∷ [] }

-- A message that carries the request `q`.
pub record IsAsking (h : Host) (v : MessageResourceControllRequest) (q : Request) : Type 0 where
  pub codec : IsRequestCoded h.json v
  pub kind : v.header.types ≡ message_id_resource
  pub asked : request_of v ≡ some q

pub way-run :
    (h : Host) (con : ℕ) (v : MessageResourceControllRequest) (q : Request) (pid : ℤ) (ok : Bool)
    (r : Execrsc) (m : Rman) (d : Desk) (l : Loop Process) (os : List Event)
    → IsWaiting m d l
    → IsAsking h v q
    → (k : Way q pid ok r m)
    → run h (service h con v m.next_job pid ok ++ os) (at_place 0 (process_of m d []) l)
      ≡ run h os (
          at_place 0
            (process_of
              (delivered r k.over)
              (process_rsc_op_event h r (record d { requests = [] }))
              [])
            l)
way-run h con v q pid ok r m d l os w p k =
    let n = m.next_job in
    let x = client (record { con = con; message = h.json.marshal_request v }) in
    let waiting = record d { requests = v ∷ [] } in
    let drained = record d { requests = [] } in
    let took = request-taken h con v d p.codec p.kind w.empty in
    let y = at_place 0 (process_of m d (x ∷ [])) l in
    let z = at_place 1 (process_of m waiting []) l in
    let e₂ : step h (turn false) y ≡ some z =
      server-turn h l w.quiet w.going false (process_of m d (x ∷ []))
        (free-process m d (x ∷ []) w.open_desk w.idle.alive w.idle.free)
      ∙ ap (λ s. some (at_place 1 s l))
          (server-served h x m d ∙ ap (λ c. process_of m c []) took) in
    let e₃ : step h (turn false) z ≡ some (at_place 2 (process_of k.taken drained []) l) =
      message-turn h l w.quiet w.going false (process_of m waiting [])
        (free-process m waiting [] w.open_desk w.idle.alive w.idle.free)
      ∙ ap (λ s. some (at_place 2 s l))
          (message-served h v q m d p.asked ∙ ap (λ c. process_of c drained []) k.executes) in
    let e₄ = aside-step h (start n (some pid)) 2 k.taken k.started drained l refl k.starts in
    let e₅ = aside-step h (exits n ok) 2 k.started k.exited drained l refl k.exits_ok in
    let e₆ = aside-step h (report n) 2 k.exited k.over drained l refl k.reports in
    let e₇ =
      event-turn h l w.quiet w.going false (process_of k.over drained [])
        (free-process k.over drained [] w.open_desk k.alive k.free)
      ∙ ap (λ s. some (at_place 0 s l)) (event-served h r k.over drained k.held) in
    run-step h (accept x) _ (at_place 0 (process_of m d []) l) (accept-step h x m d l)
    ∙ run-step h (turn false) _ y e₂
    ∙ run-step h (turn false) _ z e₃
    ∙ run-step h (aside (start n (some pid))) _ (at_place 2 (process_of k.taken drained []) l) e₄
    ∙ run-step h (aside (exits n ok)) _ (at_place 2 (process_of k.started drained []) l) e₅
    ∙ run-step h (aside (report n)) _ (at_place 2 (process_of k.exited drained []) l) e₆
    ∙ run-step h (turn false) os (at_place 2 (process_of k.over drained []) l) e₇

-- A request that is not repeated makes its way, however its agent ends.
abbrev pub once-Way :
    (q : Request) (pid : ℤ) (ok : Bool) (m : Rman)
    → int_eq q.interval (pos 0) ≡ true
    → is_negative pid ≡ false
    → IsIdle m
    → Way q pid ok (result q pid (agent_ret ok) none (pos 0)) m
once-Way q pid ok m once forked idle =
    let k = one_shot q pid ok m once forked idle in
    let r = result q pid (agent_ret ok) none (pos 0) in
    let (alive, free, held) = answered_to-free q r m.next_job k.exited k.going k.waits in
    record {
      taken = k.taken;
      started = k.started;
      exited = k.exited;
      over = answered_to m.next_job q r k.exited;
      executes = k.executes;
      starts = k.starts;
      exits_ok = k.exits_ok;
      reports = k.reports;
      alive = alive;
      free = free;
      held = held;
    }
