-- ===== src/Base.antt =====
-- base/base.go: the channels that both processes have, and their closing. `sync.RWMutex` and
-- `signal.Notify` are the library's; the methods of `BaseControll` that pass on to them are left out.
use go_test_cluster.Prelude.{
  ℕ, ◌≡◌, refl, Bool, true, false, ◌&&◌, Option, none, some, arith, if◌then◌else◌,
}

-- A channel variable: nil, or a channel of some capacity that is open or closed.
pub data Chan : Type 0 where
  nil : Chan
  open_chan closed_chan : ℕ → Chan

-- `close(ch)`; `none` is the panic on a nil or a closed channel.
unfoldable pub close : Chan → Option Chan
close (open_chan size) = some (closed_chan size)
close _ = none

abbrev pub is_open : Chan → Bool
is_open (open_chan size) = true
is_open _ = false

-- `BaseControll`
pub record BaseControll : Type 0 where
  pub signal_ch : Chan
  pub exit_ch : Chan
  pub status_ch : Chan

-- `InitBase`
unfoldable pub init_base : BaseControll → BaseControll
init_base b = record { signal_ch = open_chan 1; exit_ch = open_chan 0; status_ch = open_chan 2 }

infixl 5 ◌>>=◌
abbrev pub ◌>>=◌ : {A B : Type 0} → Option A → (A → Option B) → Option B
none >>= k = none
some a >>= k = k a

-- `TerminateBase`; `none` is a panic.
unfoldable pub terminate_base : BaseControll → Option BaseControll
unfolding close
terminate_base b = do
  e ← close b.exit_ch
  s ← close b.signal_ch
  t ← close b.status_ch
  some (record { signal_ch = s; exit_ch = e; status_ch = t })

-- The channels of a process with the receive channel of its socket server.
pub record Process : Type 0 where
  pub base : BaseControll
  pub ipc_srv_recv_ch : Chan

-- `&Controll{}` and `&Rmanager{}`
abbrev pub unborn : Process
unborn = record {
  base = record { signal_ch = nil; exit_ch = nil; status_ch = nil };
  ipc_srv_recv_ch = nil;
}

-- `Controll.Init`, as far as channels go; `srv` is what `GetRecvChannel` gives.
unfoldable pub controll_init : Chan → Process → Process
unfolding init_base
controll_init srv p = record { base = init_base p.base; ipc_srv_recv_ch = srv }

-- `Rmanager.Init`: the status channel is closed and set to nil.
unfoldable pub rmanager_init : Chan → Process → Option Process
unfolding init_base close
rmanager_init srv p = do
  let b = init_base p.base
  _ ← close b.status_ch
  some (record { base = record b { status_ch = nil }; ipc_srv_recv_ch = srv })

-- `Terminate` of `Controll` and of `Rmanager`.
unfoldable pub terminate : Process → Option Process
unfolding terminate_base
terminate p = do
  srv ← close p.ipc_srv_recv_ch
  b ← terminate_base p.base
  some (record { base = b; ipc_srv_recv_ch = srv })

-- The channel after `close`, where that does not panic.
abbrev pub closed : Chan → Chan
closed (open_chan size) = closed_chan size
closed c = c

abbrev pub all_open : Process → Bool
all_open p =
    is_open p.ipc_srv_recv_ch
    && (is_open p.base.exit_ch && (is_open p.base.signal_ch && is_open p.base.status_ch))

close-closed : (c : Chan) → close c ≡ (if is_open c then some (closed c) else none)
unfolding close
close-closed nil = refl
close-closed (open_chan size) = refl
close-closed (closed_chan size) = refl

-- `Terminate` closes all four channels if all of them are open, and panics in every other case.
pub terminate-all_open :
    (p : Process)
    → terminate p ≡ (
        if all_open p
        then some (record {
          base = record {
            signal_ch = closed p.base.signal_ch;
            exit_ch = closed p.base.exit_ch;
            status_ch = closed p.base.status_ch;
          };
          ipc_srv_recv_ch = closed p.ipc_srv_recv_ch;
        })
        else none)
unfolding terminate terminate_base
terminate-all_open p = ground (
  arith,
  close-closed p.ipc_srv_recv_ch,
  close-closed p.base.exit_ch,
  close-closed p.base.signal_ch,
  close-closed p.base.status_ch,
)
