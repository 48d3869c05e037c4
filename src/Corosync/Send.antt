-- ===== src/Corosync/Send.antt =====
-- corosync/corosync.go: `SendClusterMessage` and `GetLocalId`, which call the library.
use go_test_cluster.Prelude.{
  ℕ, ◌+◌, ◌≡◌, ◌≢◌, refl, [], ◌∷◌, ◌++◌, none, some, arith, length, take, All, ltb, if◌then◌else◌,
}
use go_test_cluster.Prelude.Text.{Bytes}
use go_test_cluster.Corosync.Retry.{CsError}
use go_test_cluster.Corosync.Session.{is_ok}
use go_test_cluster.Corosync.Callback.{Channels, coro_cap, go_string, deliver_callback}

-- `C.CString`: the bytes of the text and a byte 0 behind them.
abbrev pub c_string : Bytes → Bytes
c_string msg = msg ++ 0 ∷ []

-- `strlen`: how many bytes come before the first byte 0.
unfoldable pub strlen : Bytes → ℕ
unfolding go_string
strlen s = length (go_string s)

-- `SendClusterMessage`: the bytes that `cpg_mcast_joined` gets.
unfoldable pub send_cluster_message : Bytes → Bytes
unfolding strlen
send_cluster_message msg = let s = c_string msg in take (strlen s + 1) s

-- `GetLocalId`: the id that `cpg_local_get` gives, or, if it fails, what was in the variable, which
-- nothing has set.
unfoldable pub get_local_id : CsError → ℕ → ℕ → ℕ
get_local_id result nodeid unset = if is_ok result then nodeid else unset

-- A text that holds no byte 0.
abbrev pub IsText : Bytes → Type 0
IsText msg = All (λ (b : ℕ). b ≢ 0) msg

go_string-c_string : (msg : Bytes) → go_string (c_string msg) ≡ go_string msg
unfolding go_string
go_string-c_string [] = refl
go_string-c_string (b ∷ s) = ground (arith, go_string-c_string s)

pub go_string-send :
    (msg behind : Bytes) → go_string (send_cluster_message msg ++ behind) ≡ go_string msg
unfolding go_string send_cluster_message strlen
go_string-send [] behind = refl
go_string-send (b ∷ s) behind = ground (arith, go_string-send s behind)

pub go_string-IsText : (msg : Bytes) → IsText msg → go_string msg ≡ msg
unfolding go_string
go_string-IsText [] h = refl
go_string-IsText (b ∷ s) h = ground (arith, h.0, go_string-IsText s h.1)

-- A message that one node sends by `SendClusterMessage`, and whose bytes the library hands to a node's
-- callback, comes onto that node's channel as the text that was sent, up to its first byte 0, with the
-- id and the pid of the sender, behind what waits there, whatever stands in memory behind those
-- bytes; the callback waits exactly if the channel is full.
pub deliver-send :
    (msg behind : Bytes) (nodeid pid : ℕ) (c : Channels)
    → deliver_callback nodeid pid (send_cluster_message msg ++ behind) c ≡ (
        if ltb (length c.coro_deliv_chan) coro_cap
        then some (record c {
          coro_deliv_chan =
              c.coro_deliv_chan ++ record { nodeid = nodeid; pid = pid; msg = go_string msg } ∷ [];
        })
        else none)
unfolding deliver_callback
deliver-send msg behind nodeid pid c = ground (arith, go_string-send msg behind)
