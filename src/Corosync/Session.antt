-- ===== src/Corosync/Session.antt =====
-- corosync/corosync.go: `connect_quorum` and the main loop of `runs`.
use go_test_cluster.Prelude.{
  ℕ, ◌+◌, ◌==◌, Bool, true, false, not, ◌&&◌, List, [], ◌∷◌, ◌++◌, Option, none, some,
  if◌then◌else◌,
}
use go_test_cluster.Corosync.Retry.{CsError, cs_ok, cs_repeat, cs_repeat_init}

-- `== CS_OK`
unfoldable pub is_ok : CsError → Bool
is_ok cs_ok = true
is_ok _ = false

-- The answers of the quorum service: of `quorum_initialize`, with whether its type is QUORUM_SET,
-- of `quorum_getquorate` and of `quorum_trackstart`.
pub record Quorum : Type 0 where
  pub initialize : CsError
  pub is_set : Bool
  pub getquorate : CsError
  pub trackstart : CsError

-- `connect_quorum`: its result, and whether it has asked for notifications with success.
unfoldable pub connect_quorum : Quorum → CsError × Bool
connect_quorum a =
    if not (is_ok a.initialize)
    then (a.initialize, false)
    else if not a.is_set
    then (a.initialize, false)
    else if not (is_ok a.getquorate)
    then (a.getquorate, false)
    else (a.trackstart, is_ok a.trackstart)

-- What the library answers in one turn of the main loop: to each attempt of the four calls of the
-- set-up, with the node id, and to the two dispatches, where `select` finds their descriptor ready.
-- `left`: a dispatch calls `ConfchgCallback` with this process as the first that left, under the
-- node id that the callback gets.
pub record Turn : Type 0 where
  pub initialize : ℕ → CsError
  pub local_get : ℕ → CsError
  pub nodeid : ℕ
  pub join : ℕ → CsError
  pub membership : ℕ → CsError
  pub quorum : Quorum
  pub cpg_dispatch : Option CsError
  pub left : Option ℕ
  pub quorum_dispatch : Option CsError

-- The variables of `runs` and the globals that it shares with the callbacks; `slept` holds the
-- seconds of every sleep of `retrybackoff`, `joined` says that `cpg_join` has made the handle a
-- member of the group,
-- `dispatched` counts the turns that came to `select`.
pub record Session : Type 0 where
  pub restart : Bool
  pub recnt : ℕ
  pub nodeid_start : ℕ
  pub joined : Bool
  pub tracking : Bool
  pub slept : List ℕ
  pub dispatched : ℕ

-- The state in which `runs` enters its main loop.
unfoldable pub begin : Session
begin = record {
  restart = true;
  recnt = 0;
  nodeid_start = 0;
  joined = false;
  tracking = false;
  slept = [];
  dispatched = 0;
}

-- `retrybackoff(recnt)`
unfoldable pub retry_backoff : Session → Session
retry_backoff s = record s {
  recnt = s.recnt + 1;
  slept = s.slept ++ (s.recnt + 1) ∷ [];
  restart = true;
}

-- The set-up under `if(restart)`, and whether the turn goes on behind it. A new handle is no member.
unfoldable pub set_up : Turn → Session → Session × Bool
unfolding retry_backoff
set_up t s =
    let fresh = record s { restart = false; joined = false } in
    if not (is_ok (cs_repeat_init t.initialize).0)
    then (retry_backoff fresh, false)
    else if not (is_ok (cs_repeat t.local_get).0)
    then (retry_backoff fresh, false)
    else (let known = record fresh { nodeid_start = t.nodeid } in
        let member = record known { joined = is_ok (cs_repeat t.join).0 } in
        if not (is_ok (cs_repeat t.join).0)
        then (retry_backoff member, false)
        else (if not (is_ok (cs_repeat t.membership).0)
            then (retry_backoff member, false)
            else (record member { recnt = 0; tracking = (connect_quorum t.quorum).1 }, true)))

-- `ConfchgCallback`, for a change in which this process is the first that left.
unfoldable pub confchg_left : Option ℕ → Session → Session
confchg_left none s = s
confchg_left (some n) s =
    if not (s.nodeid_start == 0) && (n == s.nodeid_start) then record s { restart = true } else s

-- The result of a dispatch; an error asks for a restart.
unfoldable pub after_dispatch : CsError → Session → Session
after_dispatch e s = if is_ok e then s else record s { restart = true }

-- From `select` on: the dispatches, and the end of the handle before a restart.
unfoldable pub poll : Turn → Session → Session
unfolding confchg_left after_dispatch
poll t s =
    let c = record s { dispatched = s.dispatched + 1 } in
    let d : Session = elim t.cpg_dispatch [
      | none ↦ c
      | some e ↦ after_dispatch e (confchg_left t.left c)
    ] in
    let e : Session = elim t.quorum_dispatch [ none ↦ d | some r ↦ after_dispatch r d ] in
    if e.restart then record e { joined = false } else e

-- One turn of the main loop. Its condition holds behind every turn: `quit` and `doexit` stay 0, and
-- `result` is a `cs_error_t` or what `select` without a timeout gives, never 0.
unfoldable pub turn : Turn → Session → Session
unfolding set_up poll
turn t s =
    if s.restart then (let (d, ready) = set_up t s in if ready then poll t d else d) else poll t s

-- The main loop, over the answers of its turns.
unfoldable pub turns : List Turn → Session → Session
unfolding turn
turns [] s = s
turns (t ∷ ts) s = turns ts (turn t s)
