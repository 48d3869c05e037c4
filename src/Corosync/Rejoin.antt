-- ===== src/Corosync/Rejoin.antt =====
-- corosync/corosync.go: the main loop of `runs` after the process has left the group.
use go_test_cluster.Prelude.{
  ◌≡◌, ◌≢◌, ap, ◌∙◌, Bool, true, false, [], ◌∷◌, Option, none, some, arith, Option-cases, inl, inr,
}
use go_test_cluster.Corosync.Retry.{CsError}
use go_test_cluster.Corosync.Session.{
  Turn, Session, is_ok, confchg_left, after_dispatch, set_up, poll, turn, turns,
}
use go_test_cluster.Corosync.Join.{is_set_up}

-- A dispatch that goes well, or none.
abbrev pub is_fine : Option CsError → Bool
is_fine none = true
is_fine (some e) = is_ok e

-- The dispatches of this turn go well and report no departure of this process.
pub record IsCalm (t : Turn) : Type 0 where
  pub left : t.left ≡ none
  pub cpg : is_fine t.cpg_dispatch ≡ true
  pub quorum : is_fine t.quorum_dispatch ≡ true

poll-left :
    (t : Turn) (s : Session) (e : CsError)
    → s.nodeid_start ≢ 0
    → t.cpg_dispatch ≡ some e
    → t.left ≡ some s.nodeid_start
    → ((poll t s).restart ≡ true) × ((poll t s).joined ≡ false)
unfolding poll confchg_left after_dispatch
poll-left t s e known dispatched left = ground (arith, known, dispatched, left)

poll-IsCalm :
    (t : Turn) (s : Session)
    → IsCalm t
    → s.restart ≡ false
    → ((poll t s).restart ≡ false)
      × ((poll t s).joined ≡ s.joined)
      × ((poll t s).nodeid_start ≡ s.nodeid_start)
      × ((poll t s).recnt ≡ s.recnt)
unfolding poll confchg_left after_dispatch
poll-IsCalm t s calm going = elim (Option-cases t.cpg_dispatch) [
  | inl idle ↦ elim (Option-cases t.quorum_dispatch) [
    | inl silent ↦ ground (arith, calm, going, idle, silent)
    | inr (r, told) ↦ ground (arith, calm, going, idle, told)
  ]
  | inr (e, dispatched) ↦ elim (Option-cases t.quorum_dispatch) [
    | inl silent ↦ ground (arith, calm, going, dispatched, silent)
    | inr (r, told) ↦ ground (arith, calm, going, dispatched, told)
  ]
]

set_up-is_set_up :
    (t : Turn) (s : Session)
    → is_set_up t ≡ true
    → ((set_up t s).1 ≡ true)
      × ((set_up t s).0.restart ≡ false)
      × ((set_up t s).0.joined ≡ true)
      × ((set_up t s).0.nodeid_start ≡ t.nodeid)
      × ((set_up t s).0.recnt ≡ 0)
unfolding set_up
set_up-is_set_up t s up = ground (arith, up)

turn-running : (t : Turn) (s : Session) → s.restart ≡ false → turn t s ≡ poll t s
unfolding turn
turn-running t s going = ground (arith, going)

turn-restart :
    (t : Turn) (s : Session)
    → s.restart ≡ true
    → (set_up t s).1 ≡ true
    → turn t s ≡ poll t (set_up t s).0
unfolding turn
turn-restart t s again up = ground (arith, again, up)

-- A process that has left the group comes back. When a dispatch reports that this process has left,
-- under the node id with which it joined, then the process is no member behind that turn; and when the
-- set-up of the next turn succeeds, and its dispatches go well, the process is a member again behind
-- that, under the node id that it gets then, and its count of failures is 0.
pub turns-rejoined :
    (t u : Turn) (s : Session) (e : CsError)
    → s.restart ≡ false
    → s.nodeid_start ≢ 0
    → t.cpg_dispatch ≡ some e
    → t.left ≡ some s.nodeid_start
    → is_set_up u ≡ true
    → IsCalm u
    → ((turns (t ∷ []) s).joined ≡ false)
      × ((turns (t ∷ u ∷ []) s).joined ≡ true)
      × ((turns (t ∷ u ∷ []) s).restart ≡ false)
      × ((turns (t ∷ u ∷ []) s).nodeid_start ≡ u.nodeid)
      × ((turns (t ∷ u ∷ []) s).recnt ≡ 0)
unfolding turns
turns-rejoined t u s e going known dispatched left up calm =
    let first : turn t s ≡ poll t s = turn-running t s going in
    let gone = poll-left t s e known dispatched left in
    let d : Session = poll t s in
    let fresh = set_up-is_set_up u d up in
    let second : turn u (turn t s) ≡ poll u (set_up u d).0 =
      ap (turn u) first ∙ turn-restart u d gone.0 fresh.0 in
    let after = poll-IsCalm u (set_up u d).0 calm fresh.1 in
    (
      ap (λ (x : Session). x.joined) first ∙ gone.1,
      ap (λ (x : Session). x.joined) second ∙ after.1 ∙ fresh.2,
      ap (λ (x : Session). x.restart) second ∙ after.0,
      ap (λ (x : Session). x.nodeid_start) second ∙ after.2 ∙ fresh.3,
      ap (λ (x : Session). x.recnt) second ∙ after.3 ∙ fresh.4,
    )
