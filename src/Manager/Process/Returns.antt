-- ===== src/Manager/Process/Returns.antt =====
-- `process_run` returns, on fuel for each pending item, where no task of the run generates others.
use scripthut.Common.{
  ℕ, zero, suc, ◌<◌, ◌⊎◌, ◌≡◌, refl, ap, inl, inr, Bool, true, Option, some, List, [], ◌∷◌, ◌++◌,
  arith, Pointwise, get_elem?, take, All-take,
}
use scripthut.Model.{RunItem, Run, pending_count}
use scripthut.Manager.World.{World}
use scripthut.Manager.Cascade.{fail_dep}
use scripthut.Manager.Cascade.Pass.{Cascaded}
use scripthut.Manager.Cascade.Fixpoint.{cascade-Settled}
use scripthut.Manager.Slots.{is_ready, slots_available}
use scripthut.Manager.Process.Frame.{RunExtends}
use scripthut.Manager.Process.Effects.{process_run-RunExtends}
use scripthut.Manager.Process.{ready_places, submit_ready, submit_pass, finish, process_run}
use scripthut.Manager.Process.Waiting.{
  Quiet, AtMost, submit_loop-AtMost, PendingAt-places, is_ready-is_pending, submit_loop_progress,
  after_all-AtMost,
}

Cascaded-AtMost :
    (now : ℕ) (xs ys : List RunItem)
    → Pointwise (Cascaded now) xs ys
    → Quiet xs
    → AtMost (pending_count xs) ys
unfolding pending_count fail_dep
Cascaded-AtMost now [] [] p h = (tt, omega arith)
Cascaded-AtMost now [] (y ∷ ys) p h = elim p [ ]
Cascaded-AtMost now (x ∷ xs) [] p h = elim p [ ]
Cascaded-AtMost now (x ∷ xs) (y ∷ ys) p h = ground (arith, p.0, Cascaded-AtMost now xs ys p.1 h.1)

module _ (w : World) (before after : List Run) where
  submit_ready-progress :
      (fair_share : Bool) (run : Run)
      → Quiet run.items
      → AtMost (pending_count run.items) (submit_ready w before after fair_share run).0.items
        × (((submit_ready w before after fair_share run).1 ≡ [])
            ⊎ (pending_count (submit_ready w before after fair_share run).0.items
                < pending_count run.items))
  unfolding submit_ready
  submit_ready-progress fair_share run h =
      let slots =
        slots_available (before ++ run ∷ after) run (w.backend_cap run.backend_name) fair_share in
      let places = ready_places (is_ready run.items) 0 run.items in
      let waiting =
        PendingAt-places (is_ready run.items) (is_ready-is_pending run.items) run.items run.items 0
          (λ k. ap (get_elem? run.items) (omega arith)) in
      (
        submit_loop-AtMost w run (take slots places) h,
        submit_loop_progress w run (take slots places) h (All-take _ slots places waiting),
      )

  finish-returns :
      (again drive : Run → Option Run) (bound : ℕ)
      → ((r : Run)
          → Quiet r.items
          → pending_count r.items < bound
          → (r' : Run) × (again r ≡ some r') × AtMost (pending_count r.items) r'.items)
      → (sent : Run) (hits : List ℕ) → Quiet sent.items
      → (hits ≡ []) ⊎ (pending_count sent.items < bound)
      → (r' : Run) × (finish w again drive sent hits ≡ some r')
        × AtMost (pending_count sent.items) r'.items
  finish-returns again drive bound on sent [] q h = (sent, refl, (q, omega arith))
  finish-returns again drive bound on sent (k ∷ ks) q (inl e) = cc e
  finish-returns again drive bound on sent (k ∷ ks) q (inr h) =
      let (r, found, at) =
        after_all-AtMost w drive (pending_count sent.items) sent (k ∷ ks) (q, omega arith) in
      let (r', found', at') = on r at.0 (omega (arith, at.1)) in
      (r', rw (found, finish) found', (at'.0, omega (arith, at.1, at'.1)))

  pub process_run-AtMost :
      (fuel : ℕ) (fair_share : Bool) (run : Run)
      → Quiet run.items
      → pending_count run.items < fuel
      → (run' : Run) × (process_run w fuel before after fair_share run ≡ some run')
        × AtMost (pending_count run.items) run'.items
  unfolding process_run submit_pass
  process_run-AtMost zero fair_share run q h = elim h [ ]
  process_run-AtMost (suc fuel) fair_share run q h =
      let (items, found, s) = cascade-Settled w.now run.items in
      let (quiet, fewer) = Cascaded-AtMost w.now run.items items s.marks q in
      let settled = record run { items = items } in
      let (at, progress) = submit_ready-progress fair_share settled quiet in
      let sent = submit_ready w before after fair_share settled in
      let (run', done, at') =
        finish-returns (process_run w fuel before after fair_share)
          (process_run w fuel before after true) fuel (process_run-AtMost fuel fair_share) sent.0
          sent.1 at.0 (ground (arith, progress)) in
      (run', rw (found, process_run, submit_pass) done, (at'.0, omega (arith, at'.1, at.1, fewer)))

-- Where no task of the run generates others, a pass returns on one unit of fuel for each pending
-- item and one more, and every item of the run is in its place in the result, changed only if it was
-- pending.
pub process_run-returns :
    (w : World) (fuel : ℕ) (before after : List Run) (fair_share : Bool) (run : Run)
    → Quiet run.items
    → pending_count run.items < fuel
    → (run' : Run) × (process_run w fuel before after fair_share run ≡ some run')
      × RunExtends run run'
process_run-returns w fuel before after fair_share run q h =
    let (run', found, _) = process_run-AtMost w before after fuel fair_share run q h in
    (run', found, process_run-RunExtends w fuel before after fair_share run run' found)
