-- ===== src/Rmanager/Followed.antt =====
-- rmanager/: what a request leaves for the next one.
use go_test_cluster.Prelude.{
  ℕ, ◌+◌, ◌≡◌, refl, ap, ◌∙◌, subst, Bool, true, false, List, [], ◌∷◌, ◌++◌, none, arith, int_key,
  inr,
}
use go_test_cluster.Prelude.Int.{ℤ, pos, int_eq, is_negative}
use go_test_cluster.Consts.{cl_ok}
use go_test_cluster.Rmanager.Table.{
  Execrsc, is_stop, is_rsc_terminate, get_count, set_rsc_terminate-other,
}
use go_test_cluster.Rmanager.Exec.{Request, starting, finished, fin, Rman, result, exec_rsc_op}
use go_test_cluster.Rmanager.Step.{end_job}
use go_test_cluster.Rmanager.Taken.{IsIdle}
use go_test_cluster.Rmanager.Monitor.{At, agent_ret, remove_job-Older, start-At, exits-At}
use go_test_cluster.Rmanager.OneShot.{one_shot}
use go_test_cluster.Rmanager.Round.{
  IsMonitor, again, reported, reported_to, report-step, exec-again, exec-At, after_report-Recorded,
}
use go_test_cluster.Rmanager.Repeat.{Keeps-trans, again-IsMonitor}
use go_test_cluster.Rmanager.Way.{Way, delivered, once-Way}

-- The resource has been started: its record has the count 0 and is not marked as stopped, and the
-- resource manager can take the next request.
pub record IsStarted (rscid : ℤ) (m : Rman) : Type 0 where
  pub idle : IsIdle m
  pub live : is_rsc_terminate rscid m.on_rsc ≡ false
  pub counted : get_count rscid m.on_rsc ≡ pos 0

module _ (q : Request) (pid : ℤ) (ok : Bool) (m : Rman) (once : int_eq q.interval (pos 0) ≡ true)
    (forked : is_negative pid ≡ false) (idle : IsIdle m) where
  abbrev pub once_over : Rman
  once_over =
      delivered (result q pid (agent_ret ok) none (pos 0))
        (once-Way q pid ok m once forked idle).over

  pub once-IsStarted :
      is_stop q.op ≡ false → IsStarted q.rscid once_over × (once_over.next_job ≡ m.next_job + 1)
  unfolding end_job
  once-IsStarted other =
      let k = one_shot q pid ok m once forked idle in
      let same = set_rsc_terminate-other q.rscid q.op k.exited.on_rsc other in
      (
        record {
          idle = record {
            alive = k.going;
            free = (once-Way q pid ok m once forked idle).free;
            drained = refl;
            older = remove_job-Older k.exited.next_job m.next_job k.exited.jobs k.at.older;
            earlier = k.at.earlier;
          };
          live = ap (is_rsc_terminate q.rscid) same ∙ k.live;
          counted = ap (get_count q.rscid) same ∙ k.counted;
        },
        k.next_job,
      )

module _ (q : Request) (pid : ℤ) (m : Rman) (monitors : IsMonitor q)
    (forked : is_negative pid ≡ false) (begun : IsStarted q.rscid m) where
  abbrev first : Execrsc
  first = result q pid cl_ok none (pos 0)

  -- The first round of an asynchronous monitor after a start makes its way like a request that is
  -- not repeated; besides, it sets a timer for the next round.
  pub monitor-Way :
      (k : Way (again q) pid true first m) × ((ts : List (ℕ × Request)) × (t : ℕ) × (k.over.armed
          ≡ ts ++ (t, again q) ∷ []))
  unfolding end_job
  monitor-Way =
      let n = m.next_job in
      let h = again-IsMonitor q monitors in
      let a = exec_rsc_op (again q) m in
      let at₁ : At n (again q) starting a =
        exec-At q m monitors begun.idle.alive begun.idle.older begun.idle.earlier in
      let (b, e₂, at₂, k₂) = start-At n (again q) pid a at₁ forked in
      let (c, e₃, at₃, k₃) = exits-At n (again q) pid true b at₂ in
      let kept = Keeps-trans k₂ k₃ in
      let x = exec-again q m monitors in
      let counted : get_count q.rscid b.on_rsc ≡ pos 0 =
        ap (get_count q.rscid) (k₂.on_rsc ∙ ap (λ (e : Rman). e.on_rsc) x) ∙ begun.counted in
      let at =
        subst (λ v. At n (again q) (finished (fin (result q pid cl_ok none v))) c) counted at₃ in
      let live =
        ap (is_rsc_terminate q.rscid) (kept.on_rsc ∙ ap (λ (e : Rman). e.on_rsc) x) ∙ begun.live in
      let drained = kept.rsc_op_ch ∙ ap (λ (e : Rman). e.rsc_op_ch) x ∙ begun.idle.drained in
      let busy = kept.busy ∙ ap (λ (e : Rman). e.busy) x ∙ begun.idle.free in
      let d = record c { rsc_op_ch = reported first c.rsc_op_ch } in
      let w = after_report-Recorded (again q) first d h refl in
      (
        record {
          taken = a;
          started = b;
          exited = c;
          over = reported_to n (again q) first c;
          executes = refl;
          starts = e₂;
          exits_ok = e₃;
          reports = report-step n (again q) pid (pos 0) c h at live (inr (ground (arith, drained)));
          alive = w.crashed ∙ at.alive;
          free = ground (arith, w.busy, busy);
          held = w.rsc_op_ch ∙ ap (λ ch. ch ++ first ∷ []) drained;
        },
        (c.armed, c.next_timer, w.armed),
      )
