-- ===== src/Chhandler/Turn.antt =====
-- chhandler/chhandler.go: what one turn of the event loop does to the state of the handlers.
use go_test_cluster.Prelude.{
  ◌≡◌, refl, Bool, false, some, arith, Option-cases, List-cases, Bool-cases, inl, inr, ◌⊎◌,
  get_elem?,
}
use go_test_cluster.Chhandler.{
  ChannelHandlerData, ChannelLists, Loop, Signal, sigterm, sigchld, other, send_exit, on_signal,
  select, advance, poll, poll_step,
}

module _ {ℓ} {S : Type ℓ} where
  -- The state stays, or this handler has taken it there.
  abbrev pub IsServed : ChannelHandlerData S → S → S → Type ℓ
  IsServed f s d = (d ≡ s) ⊎ (f s ≡ some d)

  on_signal-state : (sig : Signal) (l : Loop S) → (on_signal sig l).state ≡ l.state
  unfolding on_signal send_exit
  on_signal-state sigchld l = refl
  on_signal-state sigterm l = ground arith
  on_signal-state (other n) l = ground arith

  select-IsServed :
      (f : ChannelHandlerData S) (favour : Bool) (l : Loop S)
      → IsServed f l.state (select f favour l).state
  unfolding select
  select-IsServed f favour l = elim (List-cases l.signal_ch) [
    | inl quiet ↦ elim (Option-cases (f l.state)) [
      | inl e ↦ inl (ground (arith, quiet, e))
      | inr (d, e) ↦ inr (ground (arith, quiet, e))
    ]
    | inr (sig, rest, pending) ↦
        let kept = on_signal-state sig (record l { signal_ch = rest }) in
        elim (Option-cases (f l.state)) [
          | inl e ↦ inl (ground (arith, pending, e, kept))
          | inr (d, e) ↦ elim (Bool-cases favour) [
            | inl b ↦ inl (ground (arith, pending, e, kept, b))
            | inr b ↦ inr (ground (arith, pending, e, b))
          ]
        ]
  ]

  poll_step-cases :
      (blocked : S → Bool) (list : ChannelLists S) (favour : Bool) (l : Loop S) {d : Loop S}
      → poll_step blocked list favour l ≡ some d
      → (blocked l.state ≡ false) × (poll list favour l ≡ d)
  unfolding poll_step
  poll_step-cases blocked list favour l e = ground (arith, Bool-cases (blocked l.state))

  -- A turn that happens finds no handler waiting, and serves the channel of its place or none.
  pub poll_step-IsServed :
      (blocked : S → Bool) (list : ChannelLists S) (favour : Bool) (l : Loop S) (d : Loop S)
      → poll_step blocked list favour l ≡ some d
      → (blocked l.state ≡ false)
        × ((d.state ≡ l.state)
            ⊎ ((f : ChannelHandlerData S) × (get_elem? list l.idx ≡ some f)
                × (f l.state ≡ some d.state)))
  unfolding poll advance
  poll_step-IsServed blocked list favour l d e =
      let (free, turned) = poll_step-cases blocked list favour l e in
      elim (Option-cases (get_elem? list l.idx)) [
        | inl out ↦ (free, inl (ground (arith, turned, out)))
        | inr (f, at) ↦ elim (select-IsServed f favour l) [
          | inl kept ↦ (free, inl (ground (arith, turned, at, kept)))
          | inr served ↦ (free, inr (f, at, ground (arith, turned, at, served)))
        ]
      ]

  pub poll_step-free :
      (blocked : S → Bool) (list : ChannelLists S) (favour : Bool) (l : Loop S)
      → l.hung ≡ false
      → blocked l.state ≡ false
      → poll_step blocked list favour l ≡ some (poll list favour l)
  unfolding poll_step
  poll_step-free blocked list favour l going free = ground (arith, going, free)
