-- ===== src/Chhandler/Tests.antt =====
-- chhandler/chhandler.go: a pass over two channels.
use go_test_cluster.Prelude.{ℕ, ◌≡◌, refl, false, true, List, [], ◌∷◌, ◌++◌, Option, none, some}
use go_test_cluster.Chhandler.{ChannelLists, Loop, new, set_channel_handler, polls}
use go_test_cluster.Chhandler.Pass.{serve_all, polls-pass}

-- What is left on a channel, and what its handler has seen.
abbrev Seen : Type 0
Seen = List ℕ × List ℕ

abbrev take_first : Seen → Option (ℕ × Seen)
take_first ([], seen) = none
take_first (n ∷ ns, seen) = some (n, (ns, seen))

abbrev note : ℕ → Seen → Seen
note n (ns, seen) = (ns, seen ++ n ∷ [])

-- Two handlers of one channel.
abbrev two_handlers : ChannelLists Seen
two_handlers =
    set_channel_handler (set_channel_handler [] (new take_first note)) (new take_first note)

abbrev at_head : Loop Seen
at_head = record {
  idx = 0;
  signal_ch = [];
  wait = none;
  hung = false;
  state = (4 ∷ 5 ∷ 6 ∷ [], []);
}

polls-pass_example :
    polls (λ s. false) two_handlers (true ∷ false ∷ []) at_head
    ≡ record at_head { state = (6 ∷ [], 4 ∷ 5 ∷ []) }
unfolding serve_all new set_channel_handler
polls-pass_example =
    polls-pass (λ s. false) two_handlers (true ∷ false ∷ []) at_head refl refl refl refl
      (refl, (refl, tt))
