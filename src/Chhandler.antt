-- ===== src/Chhandler.antt =====
-- chhandler/chhandler.go: the list of channels with their handlers, and the event loop that polls
-- them. `S` is the state that the channels and handlers are part of.
pub mod Pass
pub mod Turn
mod Tests
use go_test_cluster.Prelude.{
  ℕ, suc, Bool, true, false, ◌||◌, List, [], ◌∷◌, ◌++◌, Option, none, some, length, get_elem?, ltb,
  if◌then◌else◌,
}

-- `ChannelHandlerData`: `none` where the channel has no value, else the state after the handler.
abbrev pub ChannelHandlerData {ℓ} : Type ℓ → Type ℓ
ChannelHandlerData S = S → Option S

abbrev pub ChannelLists {ℓ} : Type ℓ → Type ℓ
ChannelLists S = List (ChannelHandlerData S)

-- `New`: a receive that does not wait, and the handler of what was received.
unfoldable pub new {ℓ κ} :
    {S : Type ℓ} {D : Type κ} → (S → Option (D × S)) → (D → S → S) → ChannelHandlerData S
new ch fn s = elim (ch s) [ none ↦ none | some (d, s') ↦ some (fn d s') ]

-- `SetChannelHandler`; a nil list and an empty one are the same here.
unfoldable pub set_channel_handler {ℓ} :
    {S : Type ℓ} → ChannelLists S → ChannelHandlerData S → ChannelLists S
set_channel_handler list handler = list ++ handler ∷ []

-- The signals that reach `Signal_ch`.
pub data Signal : Type 0 where
  sigterm sigchld : Signal
  other : ℕ → Signal

-- `ProcessRun`: the place of the polling goroutine in the list, the signal channel, what the main
-- goroutine has received from `Exit_ch`, and whether the polling one has sent there again, where
-- nobody receives any more.
pub record Loop {ℓ} (S : Type ℓ) : Type ℓ where
  pub idx : ℕ
  pub signal_ch : List Signal
  pub wait : Option ℕ
  pub hung : Bool
  pub state : S

module _ {ℓ} {S : Type ℓ} where
  -- `ct.GetExitChannel() <- 1`
  unfoldable pub send_exit : Loop S → Loop S
  send_exit l = elim l.wait [
    | none ↦ record l { wait = some 1 }
    | some _ ↦ record l { hung = true }
  ]

  unfoldable pub on_signal : Signal → Loop S → Loop S
  unfolding send_exit
  on_signal sigchld l = l
  on_signal sigterm l = send_exit l
  on_signal (other n) l = send_exit l

  -- The `select` at a place whose channel and handler are `serve`. Where both a signal and a value
  -- are there, it takes either: `favour` says whether it takes the signal.
  unfoldable pub select : ChannelHandlerData S → Bool → Loop S → Loop S
  unfolding on_signal
  select serve favour l = elim l.signal_ch [
    | [] ↦ elim (serve l.state) [ none ↦ l | some s ↦ record l { state = s } ]
    | sig ∷ rest ↦
        let handled = on_signal sig (record l { signal_ch = rest }) in
        elim (serve l.state) [
          | none ↦ handled
          | some s ↦ if favour then handled else record l { state = s }
        ]
  ]

  -- The step of the inner loop to the next place, or on to the next pass.
  unfoldable pub advance : ChannelLists S → Loop S → Loop S
  advance list l = record l { idx = if ltb (suc l.idx) (length list) then suc l.idx else 0 }

  -- One turn of the inner loop.
  unfoldable pub poll : ChannelLists S → Bool → Loop S → Loop S
  unfolding select advance
  poll list favour l = elim (get_elem? list l.idx) [
    | none ↦ l
    | some serve ↦ advance list (select serve favour l)
  ]

  -- The turn of a goroutine that can go on: `blocked` says that a handler has not returned.
  unfoldable pub poll_step : (S → Bool) → ChannelLists S → Bool → Loop S → Option (Loop S)
  unfolding poll
  poll_step blocked list favour l =
      if l.hung || blocked l.state then none else some (poll list favour l)

  -- A number of turns; those of a goroutine that cannot go on do not happen.
  unfoldable pub polls : (S → Bool) → ChannelLists S → List Bool → Loop S → Loop S
  unfolding poll_step
  polls blocked list [] l = l
  polls blocked list (b ∷ bs) l =
      polls blocked list bs (elim (poll_step blocked list b l) [ none ↦ l | some d ↦ d ])
