-- ===== src/Rmanager/Repeat.antt =====
-- rmanager/rman.go: the rounds of a repeated monitor, joined.
use go_test_cluster.Prelude.{
  ℕ, zero, suc, ◌+◌, ◌<◌, ◌≡◌, refl, sym, ap, subst, ◌∙◌, true, false, List, [], ◌∷◌, ◌++◌, none,
  some, length, ◌⊎◌, inl, inr,
}
use mathlib.Core.Path.{subst₂}
use go_test_cluster.Prelude.Int.{ℤ, pos, is_positive, is_negative}
use go_test_cluster.Consts.{cl_ok}
use go_test_cluster.Rmanager.Table.{Execrsc, is_rsc_terminate, get_count}
use go_test_cluster.Rmanager.Exec.{Request, fin, finished, Rman, result, rsc_op_cap}
use go_test_cluster.Rmanager.Step.{Op, start, exits, report, fires, step, run}
use go_test_cluster.Rmanager.Monitor.{At, Keeps, start-At, exits-At}
use go_test_cluster.Rmanager.Round.{
  IsMonitor, again, reported, reported_to, report-step, repeated_to, fires-step, IsReady, Repeated,
  repeated_to-Repeated,
}

-- One round of a monitor whose agent ends well, by its job, its timer and its process.
abbrev pub round : ℕ → ℕ → ℤ → List Op
round i t pid = start i (some pid) ∷ exits i true ∷ report i ∷ fires t ∷ []

run-cons :
    (o : Op) (os : List Op) (m : Rman) {d : Rman} → step o m ≡ some d → run (o ∷ os) m ≡ run os d
unfolding run
run-cons o os m h = rw (h, run) refl

run-nil : (m : Rman) → run [] m ≡ m
unfolding run
run-nil m = refl

pub Keeps-trans : {m d e : Rman} → Keeps m d → Keeps d e → Keeps m e
Keeps-trans k l = record {
  on_rsc = l.on_rsc ∙ k.on_rsc;
  rsc_op_ch = l.rsc_op_ch ∙ k.rsc_op_ch;
  next_timer = l.next_timer ∙ k.next_timer;
  next_job = l.next_job ∙ k.next_job;
  busy = l.busy ∙ k.busy;
  sent = l.sent ∙ k.sent;
}

Repeated-Keeps :
    (i : ℕ) (q : Request) (r : Execrsc) (m e d : Rman)
    → Keeps m e
    → Repeated i q r e d
    → Repeated i q r m d
Repeated-Keeps i q r m e d k x = record {
  ready = subst (λ n. IsReady n (again q) d) k.next_job x.ready;
  counted = x.counted;
  channel = x.channel ∙ ap (reported r) k.rsc_op_ch;
  next_timer = x.next_timer ∙ ap (λ n. n + 1) k.next_timer;
  next_job = x.next_job ∙ ap (λ n. n + 1) k.next_job;
}

round-from :
    (i : ℕ) (q : Request) (pid n : ℤ) (m a b : Rman)
    → IsMonitor q
    → step (start i (some pid)) m ≡ some a
    → step (exits i true) a ≡ some b
    → At i q (finished (fin (result q pid cl_ok none n))) b
    → Keeps m b
    → is_rsc_terminate q.rscid b.on_rsc ≡ false
    → (is_positive n ≡ true) ⊎ (length b.rsc_op_ch < rsc_op_cap)
    → Repeated i q (result q pid cl_ok none n) m (run (round i m.next_timer pid) m)
round-from i q pid n m a b h e₁ e₂ at k live room =
    let r = result q pid cl_ok none n in
    let e₃ = report-step i q pid n b h at live room in
    let e₄ =
      subst (λ t. step (fires t) (reported_to i q r b) ≡ some (repeated_to i q r b)) k.next_timer
        (fires-step i q r _ b h at refl) in
    let all =
      run-cons (start i (some pid)) _ m e₁
      ∙ (run-cons (exits i true) _ a e₂ ∙ (run-cons (report i) _ b e₃ ∙ run-cons _ [] _ e₄)) in
    subst (Repeated i q r m) (sym (all ∙ run-nil _))
      (Repeated-Keeps i q r m b _ k (repeated_to-Repeated i q r _ b h at refl))

round-Repeated :
    (i : ℕ) (q : Request) (pid : ℤ) (m : Rman)
    → IsMonitor q
    → IsReady i q m
    → is_negative pid ≡ false
    → (is_positive (get_count q.rscid m.on_rsc) ≡ true) ⊎ (length m.rsc_op_ch < rsc_op_cap)
    → Repeated i q
        (result q pid cl_ok none (get_count q.rscid m.on_rsc))
        m
        (run (round i m.next_timer pid) m)
round-Repeated i q pid m h v started room =
    let (a, e₁, at₁, k₁) = start-At i q pid m v.at started in
    let (b, e₂, at₂, k₂) = exits-At i q pid true a at₁ in
    let k = Keeps-trans k₁ k₂ in
    let at =
      subst (λ t. At i q (finished (fin (result q pid cl_ok none (get_count q.rscid t)))) b)
        k₁.on_rsc at₂ in
    round-from i q pid (get_count q.rscid m.on_rsc) m a b h e₁ e₂ at k
      (ap (is_rsc_terminate q.rscid) k.on_rsc ∙ v.live)
      (subst (λ c. (is_positive (get_count q.rscid m.on_rsc) ≡ true) ⊎ (length c < rsc_op_cap))
        (sym k.rsc_op_ch) room)

-- `k` more rounds, each with the job and the timer of the one before.
pub rounds : ℕ → ℕ → ℕ → ℕ → ℤ → List Op
rounds zero i t n pid = []
rounds (suc k) i t n pid = round i t pid ++ rounds k n (t + 1) (n + 1) pid

run-append : (os ps : List Op) (m : Rman) → run (os ++ ps) m ≡ run ps (run os m)
unfolding run
run-append [] ps m = refl
run-append (o ∷ os) ps m = run-append os ps (elim (step o m) [ none ↦ m | some d ↦ d ])

pub again-IsMonitor : (q : Request) → IsMonitor q → IsMonitor (again q)
again-IsMonitor q h = record { named = h.named; repeated = h.repeated }

rounds-silent :
    (k i : ℕ) (q : Request) (pid : ℤ) (m : Rman)
    → IsMonitor q
    → IsReady i q m
    → is_negative pid ≡ false
    → get_count q.rscid m.on_rsc ≡ pos 1
    → (run (rounds k i m.next_timer m.next_job pid) m).rsc_op_ch ≡ m.rsc_op_ch
unfolding rounds
rounds-silent zero i q pid m h v started once = ap (λ d. d.rsc_op_ch) (run-nil m)
rounds-silent (suc k) i q pid m h v started once =
    let d = run (round i m.next_timer pid) m in
    let x = round-Repeated i q pid m h v started (inl (ap is_positive once)) in
    let later =
      rounds-silent k m.next_job (again q) pid d (again-IsMonitor q h) x.ready started x.counted in
    ap (λ e. e.rsc_op_ch) (run-append (round i m.next_timer pid) _ m)
    ∙ (subst₂ (λ t n. (run (rounds k m.next_job t n pid) d).rsc_op_ch ≡ d.rsc_op_ch) x.next_timer
          x.next_job later
        ∙ (x.channel ∙ silent))
  where
    silent :
        reported (result q pid cl_ok none (get_count q.rscid m.on_rsc)) m.rsc_op_ch ≡ m.rsc_op_ch
    silent = rw once refl

-- A repeated monitor is reported once. Take a job that is to run a monitor for the first time
-- since its resource was recorded with count 0 (a start does that), the resource not being marked
-- as stopped, and room on `rscOp_ch`. If its agent ends well, and so does every later one, then
-- after any number of rounds the channel holds one more result, that of the first round.
pub monitor_reported_once :
    (k i : ℕ) (q : Request) (pid : ℤ) (m : Rman)
    → IsMonitor q
    → IsReady i q m
    → is_negative pid ≡ false
    → get_count q.rscid m.on_rsc ≡ pos 0
    → length m.rsc_op_ch < rsc_op_cap
    → (run (rounds (suc k) i m.next_timer m.next_job pid) m).rsc_op_ch
      ≡ m.rsc_op_ch ++ result q pid cl_ok none (pos 0) ∷ []
unfolding rounds
monitor_reported_once k i q pid m h v started first room =
    let d = run (round i m.next_timer pid) m in
    let x = round-Repeated i q pid m h v started (inr room) in
    let later =
      rounds-silent k m.next_job (again q) pid d (again-IsMonitor q h) x.ready started x.counted in
    ap (λ e. e.rsc_op_ch) (run-append (round i m.next_timer pid) _ m)
    ∙ (subst₂ (λ t n. (run (rounds k m.next_job t n pid) d).rsc_op_ch ≡ d.rsc_op_ch) x.next_timer
          x.next_job later
        ∙ (x.channel ∙ spoken))
  where
    spoken :
        reported (result q pid cl_ok none (get_count q.rscid m.on_rsc)) m.rsc_op_ch
        ≡ m.rsc_op_ch ++ result q pid cl_ok none (pos 0) ∷ []
    spoken = rw first refl
