-- ===== src/Ipcc/Buffer.antt =====
-- ipcc/ipcc.go: the one buffer of `receiver`, of which it hands out slices.
use go_test_cluster.Prelude.{
  ℕ, ◌≤◌, ◌≡◌, true, [], ◌∷◌, none, arith, length, take, take-append_le, take-length,
}
use go_test_cluster.Prelude.Text.{Bytes}
use go_test_cluster.Message.{Json}
use go_test_cluster.Consts.{buff_max}
use go_test_cluster.Ipcc.{Client, Op, contents, overwrite, step, run}

take-overwrite : (n : ℕ) (d b : Bytes) → n ≤ length d → take n (overwrite d b) ≡ take n d
take-overwrite n d b h = take-append_le n d _ h

-- While nothing else arrives, a slice shows the message that was read.
pub arrive-contents :
    (j : Json) (c : Client) (d : Bytes)
    → c.receiving ≡ true
    → c.reading ≡ none
    → c.rcv_read_ch ≡ []
    → length d ≤ buff_max
    → let e = run j (Op.arrive d ∷ Op.hand_on ∷ []) c in
      (e.rcv_read_ch ≡ length d ∷ []) × (contents (length d) e ≡ d)
unfolding run step
arrive-contents j c d on idle empty fits =
    ground (arith, take-overwrite (length d) d c.buf, take-length d)

-- A message that is still in `rcv_read_ch` when the next one is read is lost: once a second
-- message, at least as long, has arrived, the first slice shows a prefix of the second.
pub late_slice_overwritten :
    (j : Json) (c : Client) (d e : Bytes)
    → c.receiving ≡ true
    → c.reading ≡ none
    → c.rcv_read_ch ≡ []
    → length d ≤ length e
    → length e ≤ buff_max
    → let s = run j (Op.arrive d ∷ Op.hand_on ∷ Op.arrive e ∷ Op.hand_on ∷ []) c in
      (s.rcv_read_ch ≡ length d ∷ length e ∷ []) × (contents (length d) s ≡ take (length d) e)
unfolding run step
late_slice_overwritten j c d e on idle empty shorter fits =
    ground (arith, take-overwrite (length d) e (overwrite d c.buf))
