-- ===== src/Ipcs/Order.antt =====
-- ipcs/ipcs.go: many connections at once. Each has a goroutine of its own, `clientReceive`, and all
-- send on the one unbuffered channel from which the event loop receives.
use go_test_cluster.Prelude.{
  ℕ, ◌≡◌, refl, sym, ap, ◌∙◌, Bool, true, false, List, [], ◌∷◌, ◌++◌, arith, ◌==◌, if◌then◌else◌,
  append_assoc, append-nil, Bool-cases, List-cases, inl, inr,
}
use go_test_cluster.Prelude.Text.{Bytes}
use go_test_cluster.Ipcs.{Read, chunk, failed, Received, client, text, client_receive}

-- What the goroutine of each connection has still to send, and what the event loop has received.
pub record Traffic : Type 0 where
  pub pending : ℕ → List Received
  pub received : List Received

-- The connections with what is read from them, before anything is received.
abbrev pub begin : (ℕ → List Read) → Traffic
begin reads = record { pending = λ c. (client_receive c (reads c)).0; received = [] }

-- The event loop receives the next value of one connection, if it has one.
unfoldable pub receive : ℕ → Traffic → Traffic
receive c t = elim (t.pending c) [
  | [] ↦ t
  | m ∷ q ↦ record {
    pending = λ k. if k == c then q else t.pending k;
    received = t.received ++ m ∷ [];
  }
]

-- Any choice of connections.
unfoldable pub receives : List ℕ → Traffic → Traffic
unfolding receive
receives [] t = t
receives (c ∷ cs) t = receives cs (receive c t)

-- The messages of one connection among all.
unfoldable pub of_connection : ℕ → List Received → List Bytes
of_connection k [] = []
of_connection k (client c ∷ rs) =
    let rest = of_connection k rs in if c.con == k then c.message ∷ rest else rest
of_connection k (text t ∷ rs) = of_connection k rs

-- What was read before the first error.
unfoldable pub chunks : List Read → List Bytes
chunks [] = []
chunks (failed ∷ rs) = []
chunks (chunk d ∷ rs) = d ∷ chunks rs

of_connection-append :
    (k : ℕ) (rs ss : List Received)
    → of_connection k (rs ++ ss) ≡ of_connection k rs ++ of_connection k ss
unfolding of_connection
of_connection-append k [] ss = refl
of_connection-append k (client c ∷ rs) ss = ground (arith, of_connection-append k rs ss)
of_connection-append k (text t ∷ rs) ss = of_connection-append k rs ss

of_connection-client_receive :
    (c : ℕ) (rs : List Read) → of_connection c (client_receive c rs).0 ≡ chunks rs
unfolding of_connection client_receive chunks
of_connection-client_receive c [] = refl
of_connection-client_receive c (failed ∷ rs) = refl
of_connection-client_receive c (chunk d ∷ rs) = ground (arith, of_connection-client_receive c rs)

-- Nobody else sends under the number of a connection.
unfoldable pub is_own : ℕ → List Received → Bool
is_own k [] = true
is_own k (client c ∷ rs) = let rest = is_own k rs in if c.con == k then rest else false
is_own k (text t ∷ rs) = is_own k rs

abbrev IsOwn : Traffic → Type 0
IsOwn t = (k : ℕ) → is_own k (t.pending k) ≡ true

is_own-client_receive : (c : ℕ) (rs : List Read) → is_own c (client_receive c rs).0 ≡ true
unfolding is_own client_receive
is_own-client_receive c [] = refl
is_own-client_receive c (failed ∷ rs) = refl
is_own-client_receive c (chunk d ∷ rs) = ground (arith, is_own-client_receive c rs)

-- The messages of a connection that were received and that are still to come.
abbrev whole : ℕ → Traffic → List Bytes
whole k t = of_connection k t.received ++ of_connection k (t.pending k)

receive-IsOwn : (c : ℕ) (t : Traffic) → IsOwn t → IsOwn (receive c t)
unfolding receive is_own
receive-IsOwn c t own k = elim (List-cases (t.pending c)) [
  | inl empty ↦ ground (arith, empty, own k)
  | inr (client x, q, held) ↦ ground (arith, held, own k, own c)
  | inr (text x, q, held) ↦ ground (arith, held, own k, own c)
]

-- One value more is received: the messages of `k` among it and what follows.
moved :
    (k : ℕ) (m : Received) (rs q : List Received)
    → of_connection k (rs ++ m ∷ []) ++ of_connection k q
      ≡ of_connection k rs ++ of_connection k (m ∷ q)
unfolding of_connection
moved k (client x) rs q = ground (
  arith,
  of_connection-append k rs (client x ∷ []),
  append_assoc (of_connection k rs) (x.message ∷ []) (of_connection k q),
  append-nil (of_connection k rs),
)
moved k (text x) rs q =
    ground (arith, of_connection-append k rs (text x ∷ []), append-nil (of_connection k rs))

foreign :
    (c k : ℕ) (m : Received) (rs q : List Received)
    → is_own c (m ∷ q) ≡ true
    → (k == c) ≡ false
    → of_connection k (rs ++ m ∷ []) ≡ of_connection k rs
unfolding is_own of_connection
foreign c k (client x) rs q own other =
    ground (
      arith,
      own,
      other,
      of_connection-append k rs (client x ∷ []),
      append-nil (of_connection k rs),
    )
foreign c k (text x) rs q own other =
    ground (arith, of_connection-append k rs (text x ∷ []), append-nil (of_connection k rs))

receive-whole : (c k : ℕ) (t : Traffic) → IsOwn t → whole k (receive c t) ≡ whole k t
unfolding receive
receive-whole c k t own = elim (List-cases (t.pending c)) [
  | inl empty ↦ ground (arith, empty)
  | inr (m, q, held) ↦
      let mine : is_own c (m ∷ q) ≡ true = ap (is_own c) (sym held) ∙ own c in
      elim (Bool-cases (k == c)) [
        | inl this ↦ ground (arith, held, this, moved k m t.received q)
        | inr other ↦ ground (arith, held, other, foreign c k m t.received q mine other)
      ]
]

receives-whole : (cs : List ℕ) (k : ℕ) (t : Traffic) → IsOwn t → whole k (receives cs t) ≡ whole k t
unfolding receives
receives-whole [] k t own = refl
receives-whole (c ∷ cs) k t own =
    receives-whole cs k (receive c t) (receive-IsOwn c t own) ∙ receive-whole c k t own

-- Whatever the order in which the event loop receives from the connections, each connection's messages
-- come to it in the order in which they were read there, none lost, doubled or mixed up with those of
-- another: what it has received of a connection, and then what is still to come, are the reads of that
-- connection up to the first error.
pub receives-in_order :
    (reads : ℕ → List Read) (cs : List ℕ) (k : ℕ)
    → let t = receives cs (begin reads) in
      of_connection k t.received ++ of_connection k (t.pending k) ≡ chunks (reads k)
unfolding of_connection
receives-in_order reads cs k =
    receives-whole cs k (begin reads) (λ c. is_own-client_receive c (reads c))
    ∙ of_connection-client_receive k (reads k)
