-- ===== src/Ipcs.antt =====
-- ipcs/ipcs.go: the server side of a Unix socket. A connection is known by its number; whether a
-- `Write` on it succeeds is an argument, and what a `Read` gives is a list.
pub mod Order
use go_test_cluster.Prelude.{
  ℕ, suc, append-nil, ◌≡◌, refl, Bool, true, false, ◌&&◌, not, List, [], ◌∷◌, ◌++◌, Option, none,
  some, arith, int_key, Option-cases, inl, inr, if◌then◌else◌,
}
use go_test_cluster.Prelude.Int.{ℤ, int_eq}
use go_test_cluster.Prelude.Text.{Bytes, codes}
use go_test_cluster.Prelude.Dict.{Dict, lookup, delete, lookup-delete}

-- `ClientConnect`
pub record ClientConnect : Type 0 where
  pub con : ℕ
  pub message : Bytes

-- What happens on the connections: a message goes out, or the server closes one.
pub data NetEvent : Type 0 where
  wrote : ℕ → Bytes → NetEvent
  closed : ℕ → NetEvent

abbrev pub Clients : Type 0
Clients = Dict ℤ ClientConnect

-- The clients, and what has happened on the connections.
pub record Server : Type 0 where
  pub clients : Clients
  pub net : List NetEvent

-- `SendIpcToClient`, whose result is CL_OK in every case.
unfoldable pub send_ipc_to_client : (ℕ → Bytes → Bool) → ℤ → Bytes → Server → Server
send_ipc_to_client write dest bytes s = elim (lookup dest s.clients) [
  | none ↦ s
  | some to ↦
      if write to.con bytes
      then record s { net = s.net ++ wrote to.con bytes ∷ [] }
      else record s { clients = delete dest s.clients; net = s.net ++ closed to.con ∷ [] }
]

-- The result of a `Read`: some bytes, or an error.
pub data Read : Type 0 where
  chunk : Bytes → Read
  failed : Read

-- What `clientReceive` puts on the receive channel.
pub data Received : Type 0 where
  client : ClientConnect → Received
  text : Bytes → Received

-- `clientReceive`, over the results of its `Read`s: what it puts on the channel, and whether it has
-- closed the connection. Each message has a buffer of its own.
unfoldable pub client_receive : ℕ → List Read → List Received × Bool
client_receive c [] = ([], false)
client_receive c (failed ∷ rs) = (text (codes "exit") ∷ [], true)
client_receive c (chunk d ∷ rs) =
    let rest = client_receive c rs in (client (record { con = c; message = d }) ∷ rest.0, rest.1)

-- `ipcServerStart`: the connections that `Accept` gives, an error being logged and passed over.
unfoldable pub ipc_server_start : List (Option ℕ) → List ℕ
ipc_server_start [] = []
ipc_server_start (none ∷ as') = ipc_server_start as'
ipc_server_start (some c ∷ as') = c ∷ ipc_server_start as'

abbrev pub wrote_to : Option ClientConnect → Bytes → (ℕ → Bytes → Bool) → List NetEvent
wrote_to none bytes write = []
wrote_to (some to) bytes write =
    if write to.con bytes then wrote to.con bytes ∷ [] else closed to.con ∷ []

-- Did the write fail?
abbrev pub write_failed : Option ClientConnect → Bytes → (ℕ → Bytes → Bool) → Bool
write_failed none bytes write = false
write_failed (some to) bytes write = not (write to.con bytes)

-- `SendIpcToClient` writes to the connection that is registered under the destination, and to no
-- other. If that fails it closes the connection and forgets that client; every other client stays
-- registered as it was, and an unknown destination changes nothing.
pub send_ipc_to_client-lookup :
    (write : ℕ → Bytes → Bool) (dest k : ℤ) (bytes : Bytes) (s : Server)
    → let d = send_ipc_to_client write dest bytes s in
      let to = lookup dest s.clients in
      (d.net ≡ s.net ++ wrote_to to bytes write)
      × (lookup k d.clients
          ≡ (if int_eq dest k && write_failed to bytes write then none else lookup k s.clients))
unfolding send_ipc_to_client
send_ipc_to_client-lookup write dest k bytes s = elim (Option-cases (lookup dest s.clients)) [
  | inl e ↦ ground (arith, append-nil s.net)
  | inr (to, e) ↦ ground (arith, lookup-delete dest k s.clients)
]

-- The bytes that a connection has brought.
pub bytes_of : List Received → Bytes
bytes_of [] = []
bytes_of (client c ∷ rs) = c.message ++ bytes_of rs
bytes_of (text t ∷ rs) = bytes_of rs

unfoldable pub bytes_read : List Read → Bytes
bytes_read [] = []
bytes_read (failed ∷ rs) = []
bytes_read (chunk d ∷ rs) = d ++ bytes_read rs

-- How often "exit" is put on the channel.
pub exits : List Received → ℕ
exits [] = 0
exits (client c ∷ rs) = exits rs
exits (text t ∷ rs) = suc (exits rs)

-- A connection's messages are what was read up to the first error, joined in order, with nothing
-- lost or added; the connection is closed exactly when "exit" is put on the channel, which
-- happens once at most.
pub client_receive-bytes :
    (c : ℕ) (rs : List Read)
    → (bytes_of (client_receive c rs).0 ≡ bytes_read rs)
      × (exits (client_receive c rs).0 ≡ (if (client_receive c rs).1 then 1 else 0))
unfolding client_receive bytes_of bytes_read exits
client_receive-bytes c [] = (refl, refl)
client_receive-bytes c (failed ∷ rs) = (refl, refl)
client_receive-bytes c (chunk d ∷ rs) = ground (arith, client_receive-bytes c rs)
