-- ===== src/Corosync/Join.antt =====
-- corosync/corosync.go: the turns of the main loop of `runs`, joined.
use go_test_cluster.Prelude.{
  ℕ, zero, suc, ◌+◌, ◌≡◌, refl, sym, ap, subst, ◌∙◌, ◌⊎◌, inl, inr, Bool-cases, Option-cases,
  if◌then◌else◌, Bool, true, false, not, ◌&&◌, List, [], ◌∷◌, ◌++◌, arith, All, length, append-nil,
  append_assoc,
}
use go_test_cluster.Corosync.Retry.{cs_repeat, cs_repeat_init}
use go_test_cluster.Corosync.Session.{
  Turn, Session, Quorum, is_ok, connect_quorum, begin, set_up, retry_backoff, poll, turn, turns,
  confchg_left, after_dispatch,
}

-- Does the set-up of this turn succeed?
abbrev pub is_set_up : Turn → Bool
is_set_up t =
    is_ok (cs_repeat_init t.initialize).0
    && (is_ok (cs_repeat t.local_get).0
        && (is_ok (cs_repeat t.join).0 && is_ok (cs_repeat t.membership).0))

-- The session stands on an earlier turn, in which the library answered all four calls of the set-up
-- with CS_OK and gave this node id; `past` are the turns so far.
abbrev pub IsEstablished : List Turn → Session → Type 0
IsEstablished past s =
    (before : List Turn) × (t : Turn) × (after : List Turn) × (past ≡ before ++ t ∷ after)
    × (is_set_up t ≡ true)
    × (s.nodeid_start ≡ t.nodeid)
    × (s.joined ≡ true)

-- A restart is asked for, or the session stands on a turn of the past.
abbrev pub IsStanding : List Turn → Session → Type 0
IsStanding past s = (s.restart ≡ true) ⊎ IsEstablished past s

poll-going :
    (t : Turn) (s : Session)
    → (poll t s).restart ≡ false
    → ((poll t s).nodeid_start ≡ s.nodeid_start) × ((poll t s).joined ≡ s.joined)
unfolding poll confchg_left after_dispatch
poll-going t s going = elim (Option-cases t.cpg_dispatch) [
  | inl idle ↦ elim (Option-cases t.quorum_dispatch) [
    | inl silent ↦ ground (arith, going, idle, silent)
    | inr (r, told) ↦ ground (arith, going, idle, told)
  ]
  | inr (e, dispatched) ↦ elim (Option-cases t.quorum_dispatch) [
    | inl silent ↦ ground (arith, going, dispatched, silent)
    | inr (r, told) ↦ ground (arith, going, dispatched, told)
  ]
]

poll-IsStanding :
    (past : List Turn) (t : Turn) (s : Session) → IsEstablished past s → IsStanding past (poll t s)
poll-IsStanding past t s (before, u, after, cut, up, known, joined) =
    elim (Bool-cases (poll t s).restart) [
      | inl again ↦ inl again
      | inr going ↦
          let (same, still) = poll-going t s going in
          inr (before, u, after, cut, up, same ∙ known, still ∙ joined)
    ]

set_up-done :
    (t : Turn) (s : Session)
    → is_set_up t ≡ true
    → ((set_up t s).1 ≡ true)
      × ((set_up t s).0.nodeid_start ≡ t.nodeid)
      × ((set_up t s).0.joined ≡ true)
unfolding set_up
set_up-done t s up = ground (arith, up)

set_up-failed :
    (t : Turn) (s : Session)
    → is_set_up t ≡ false
    → ((set_up t s).1 ≡ false) × ((set_up t s).0.restart ≡ true)
unfolding set_up retry_backoff
set_up-failed t s failed = ground (arith, failed)

turn-going : (t : Turn) (s : Session) → s.restart ≡ false → turn t s ≡ poll t s
unfolding turn
turn-going t s going = ground (arith, going)

turn-again :
    (t : Turn) (s : Session)
    → s.restart ≡ true
    → turn t s ≡ (if (set_up t s).1 then poll t (set_up t s).0 else (set_up t s).0)
unfolding turn
turn-again t s again = ground (arith, again)

later :
    (past : List Turn) (t : Turn) (s : Session)
    → IsEstablished past s
    → IsEstablished (past ++ t ∷ []) s
later past t s (before, u, after, cut, up, known, joined) = (
  before,
  u,
  after ++ t ∷ [],
  ap (λ ts. ts ++ t ∷ []) cut ∙ append_assoc before (u ∷ after) (t ∷ []),
  up,
  known,
  joined,
)

turn-IsStanding :
    (past : List Turn) (t : Turn) (s : Session)
    → IsStanding past s
    → IsStanding (past ++ t ∷ []) (turn t s)
turn-IsStanding past t s h = elim (Bool-cases s.restart) [
  | inr going ↦ elim h [
    | inl again ↦ absurd (ground (arith, going, again))
    | inr e ↦
        subst (IsStanding (past ++ t ∷ [])) (sym (turn-going t s going))
          (poll-IsStanding (past ++ t ∷ []) t s (later past t s e))
  ]
  | inl again ↦ elim (Bool-cases (is_set_up t)) [
    | inl up ↦
        let (ready, known, joined) = set_up-done t s up in
        let went : turn t s ≡ poll t (set_up t s).0 =
          turn-again t s again ∙ ground (arith, ready) in
        subst (IsStanding (past ++ t ∷ [])) (sym went)
          (poll-IsStanding (past ++ t ∷ []) t (set_up t s).0 (past, t, [], refl, up, known, joined))
    | inr failed ↦
        let (broken, restarts) = set_up-failed t s failed in
        inl (ground (arith, turn-again t s again, broken, restarts))
  ]
]

turns-IsStanding :
    (past ts : List Turn) (s : Session) → IsStanding past s → IsStanding (past ++ ts) (turns ts s)
unfolding turns
turns-IsStanding past [] s h = subst (λ l. IsStanding l s) (sym (append-nil past)) h
turns-IsStanding past (t ∷ ts) s h =
    subst (λ l. IsStanding l (turns ts (turn t s))) (append_assoc past (t ∷ []) ts)
      (turns-IsStanding (past ++ t ∷ []) ts (turn t s) (turn-IsStanding past t s h))

-- Whatever the library answers, behind every turn of the main loop a restart is asked for, or the
-- session stands on one of the turns so far, in which the library answered all four calls of the
-- set-up with CS_OK in the end: its node id is the one that the library gave in that turn, and the
-- process is joined.
pub turns-joined : (ts : List Turn) → IsStanding ts (turns ts begin)
unfolding begin
turns-joined ts = turns-IsStanding [] ts begin (inl refl)

-- The seconds of `n` sleeps in a row behind a counter.
unfoldable pub seconds : ℕ → ℕ → List ℕ
seconds r zero = []
seconds r (suc n) = suc r ∷ seconds (suc r) n

turn-failed :
    (t : Turn) (s : Session)
    → is_set_up t ≡ false
    → s.restart ≡ true
    → ((turn t s).restart ≡ true)
      × ((turn t s).recnt ≡ suc s.recnt)
      × ((turn t s).dispatched ≡ s.dispatched)
      × ((turn t s).slept ≡ s.slept ++ suc s.recnt ∷ [])
unfolding turn set_up retry_backoff
turn-failed t s h r = ground arith

-- While the set-up fails the main loop only tries again: it never comes to `select`, and behind the
-- failures so far it sleeps one second more each time, without a bound.
pub turns-failing :
    (ts : List Turn) (s : Session)
    → All (λ t. is_set_up t ≡ false) ts
    → s.restart ≡ true
    → let e = turns ts s in
      (e.restart ≡ true)
      × (e.recnt ≡ s.recnt + length ts)
      × (e.dispatched ≡ s.dispatched)
      × (e.slept ≡ s.slept ++ seconds s.recnt (length ts))
unfolding turns seconds
turns-failing [] s h r = ground (arith, append-nil s.slept)
turns-failing (t ∷ ts) s h r =
    let (again, one_more, same, slept) = turn-failed t s h.0 r in
    let (again', more, same', slept') = turns-failing ts (turn t s) h.1 again in
    (
      again',
      omega arith,
      omega arith,
      ground (arith, append_assoc s.slept (suc s.recnt ∷ []) (seconds (suc s.recnt) (length ts))),
    )

-- `connect_quorum` reports success without notifications exactly where the service could be
-- reached and its type is not QUORUM_SET; every other success means that the quorum is tracked.
pub connect_quorum-silent :
    (a : Quorum)
    → (is_ok (connect_quorum a).0 && not (connect_quorum a).1)
      ≡ (is_ok a.initialize && not a.is_set)
unfolding connect_quorum
connect_quorum-silent a = ground arith
