-- ===== src/Ipcc/Socket.antt =====
-- ipcc/ipcc.go: `Connect` and `Disconnect`. `net.Dial` gives a connection or an error, which is
-- logged, as is an error of `Close`.
use go_test_cluster.Prelude.{ℕ, ◌≡◌, List, [], ◌∷◌, ◌++◌, Option, none, some, refl}

-- The field `conn`, and the connections that were closed.
pub record Socket : Type 0 where
  pub conn : Option ℕ
  pub closed : List ℕ

-- `Connect`: the new state and the result; a connection that was there is not closed.
unfoldable pub connect : Option ℕ → Socket → Socket × Option ℕ
connect none s = (s, none)
connect (some c) s = (record s { conn = some c }, some c)

-- `Disconnect`
unfoldable pub disconnect : Socket → Socket
disconnect s = elim s.conn [
  | none ↦ s
  | some c ↦ record s { conn = none; closed = s.closed ++ c ∷ [] }
]

-- A connection is closed once, however often `Disconnect` is called.
disconnect-connect :
    (c : ℕ) (s : Socket)
    → let d = disconnect (connect (some c) s).0 in
      (d ≡ record s { conn = none; closed = s.closed ++ c ∷ [] }) × (disconnect d ≡ d)
unfolding connect disconnect
disconnect-connect c s = (refl, refl)
