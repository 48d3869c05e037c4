-- ===== src/Chhandler/Pass.antt =====
-- chhandler/chhandler.go: the turns of one pass of the event loop, joined.
use go_test_cluster.Prelude.{
  ℕ, ◌≡◌, refl, Bool, false, List, [], ◌∷◌, ◌++◌, none, some, arith, length, get_elem?,
  append_assoc, length-append, Option-cases, inl, inr, ap, subst, ◌∙◌,
}
use go_test_cluster.Chhandler.{
  ChannelHandlerData, ChannelLists, Loop, poll, poll_step, polls, advance, select,
}

module _ {ℓ} {S : Type ℓ} where
  -- A channel that is served once, if it has a value.
  abbrev pub serve_once : ChannelHandlerData S → S → S
  serve_once serve s = elim (serve s) [ none ↦ s | some d ↦ d ]

  -- The channels of a list served once each, in the order of the list.
  unfoldable pub serve_all : ChannelLists S → S → S
  serve_all [] s = s
  serve_all (f ∷ fs) s = serve_all fs (serve_once f s)

  -- No handler of these waits when the next channel's turn comes.
  abbrev pub IsFree : (S → Bool) → ChannelLists S → S → Type 0
  IsFree blocked [] s = Unit
  IsFree blocked (f ∷ fs) s = (blocked s ≡ false) × IsFree blocked fs (serve_once f s)

  get_elem-append :
      (xs : ChannelLists S) (f : ChannelHandlerData S) (ys : ChannelLists S)
      → get_elem? (xs ++ f ∷ ys) (length xs) ≡ some f
  get_elem-append [] f ys = refl
  get_elem-append (x ∷ xs) f ys = get_elem-append xs f ys

  -- Where in the list the turn after these is.
  abbrev pub place : ChannelLists S → ChannelLists S → ℕ
  place before [] = 0
  place before (f ∷ fs) = length before

  poll-at :
      (list : ChannelLists S) (f : ChannelHandlerData S) (b : Bool) (l : Loop S)
      → get_elem? list l.idx ≡ some f
      → poll list b l ≡ advance list (select f b l)
  unfolding poll
  poll-at list f b l e = rw (e, poll) refl

  select-quiet :
      (f : ChannelHandlerData S) (b : Bool) (l : Loop S)
      → l.signal_ch ≡ []
      → select f b l ≡ record l { state = serve_once f l.state }
  unfolding select
  select-quiet f b l quiet = elim (Option-cases (f l.state)) [
    | inl e ↦ ground (arith, quiet, e)
    | inr (d, e) ↦ ground (arith, quiet, e)
  ]

  advance-place :
      (before : ChannelLists S) (f : ChannelHandlerData S) (fs : ChannelLists S) (l : Loop S)
      → l.idx ≡ length before
      → advance (before ++ f ∷ fs) l ≡ record l { idx = place (before ++ f ∷ []) fs }
  unfolding advance
  advance-place before f [] l at = ground (arith, at, length-append before (f ∷ []))
  advance-place before f (g ∷ fs) l at =
      ground (arith, at, length-append before (f ∷ []), length-append before (f ∷ g ∷ fs))

  pub poll-quiet :
      (before : ChannelLists S) (f : ChannelHandlerData S) (fs : ChannelLists S) (b : Bool)
      (l : Loop S)
      → l.idx ≡ length before
      → l.signal_ch ≡ []
      → poll (before ++ f ∷ fs) b l
        ≡ record l { idx = place (before ++ f ∷ []) fs; state = serve_once f l.state }
  poll-quiet before f fs b l at quiet =
      poll-at (before ++ f ∷ fs) f b l
        (ap (get_elem? (before ++ f ∷ fs)) at ∙ get_elem-append before f fs)
      ∙ ap (advance (before ++ f ∷ fs)) (select-quiet f b l quiet)
      ∙ advance-place before f fs (record l { state = serve_once f l.state }) at

  polls-cons :
      (blocked : S → Bool) (list : ChannelLists S) (b : Bool) (bs : List Bool) (l : Loop S)
      → l.hung ≡ false
      → blocked l.state ≡ false
      → polls blocked list (b ∷ bs) l ≡ polls blocked list bs (poll list b l)
  unfolding polls poll_step
  polls-cons blocked list b bs l going free = rw (going, free) refl

  polls-nil :
      (blocked : S → Bool) (list : ChannelLists S) (l : Loop S) → polls blocked list [] l ≡ l
  unfolding polls
  polls-nil blocked list l = refl

  polls-from :
      (blocked : S → Bool) (before : ChannelLists S) (f : ChannelHandlerData S)
      (fs : ChannelLists S) (bs : List Bool) (l : Loop S)
      → length bs ≡ length (f ∷ fs)
      → l.idx ≡ length before
      → l.signal_ch ≡ []
      → l.hung ≡ false
      → IsFree blocked (f ∷ fs) l.state
      → polls blocked (before ++ f ∷ fs) bs l
        ≡ record l { idx = 0; state = serve_all (f ∷ fs) l.state }
  unfolding serve_all
  polls-from blocked before f fs [] l n at quiet going free = absurd (omega (arith, n))
  polls-from blocked before f [] (b ∷ []) l n at quiet going free =
      polls-cons blocked (before ++ f ∷ []) b [] l going free.0
      ∙ polls-nil blocked (before ++ f ∷ []) (poll (before ++ f ∷ []) b l)
      ∙ poll-quiet before f [] b l at quiet
  polls-from blocked before f [] (b ∷ c ∷ bs) l n at quiet going free = absurd (omega (arith, n))
  polls-from blocked before f (g ∷ gs) (b ∷ bs) l n at quiet going free =
      let d : Loop S = record l { idx = length (before ++ f ∷ []); state = serve_once f l.state } in
      let same = append_assoc before (f ∷ []) (g ∷ gs) in
      polls-cons blocked (before ++ f ∷ g ∷ gs) b bs l going free.0
      ∙ ap (polls blocked (before ++ f ∷ g ∷ gs) bs) (poll-quiet before f (g ∷ gs) b l at quiet)
      ∙ subst
          (λ list.
            polls blocked list bs d
            ≡ record d { idx = 0; state = serve_all gs (serve_once g d.state) })
          same
          (polls-from blocked (before ++ f ∷ []) g gs bs d (omega (arith, n)) refl quiet going
            free.1)

  -- A pass of the event loop in which no signal comes, and no handler waits when the next channel's
  -- turn comes, serves every channel once, in the order in which the handlers were set, and ends at
  -- the head of the list again: no channel starves, whatever the others bring.
  pub polls-pass :
      (blocked : S → Bool) (list : ChannelLists S) (bs : List Bool) (l : Loop S)
      → length bs ≡ length list
      → l.idx ≡ 0
      → l.signal_ch ≡ []
      → l.hung ≡ false
      → IsFree blocked list l.state
      → polls blocked list bs l ≡ record l { idx = 0; state = serve_all list l.state }
  unfolding polls serve_all
  polls-pass blocked [] [] l n at quiet going free = ground (arith, at)
  polls-pass blocked [] (b ∷ bs) l n at quiet going free = absurd (omega (arith, n))
  polls-pass blocked (f ∷ fs) bs l n at quiet going free =
      polls-from blocked [] f fs bs l n at quiet going free
