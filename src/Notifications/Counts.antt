-- ===== src/Notifications/Counts.antt =====
-- `_compute_stats` of src/scripthut/notifications.py.
use scripthut.Common.{
  ℕ, ◌+◌, ◌≡◌, inl, inr, List, [], ◌∷◌, if◌then◌else◌, arith, Bool-cases, length,
}
use scripthut.Model.{RunItem, RunItemStatus, Run}
use scripthut.Model.Status.{status}
use scripthut.Notifications.{Stats, is_active, count_status, count_items, count_runs, compute_stats}

abbrev pub total : Stats → ℕ
total s = s.running + s.waiting + s.completed + s.failed

-- The items of the active runs.
abbrev pub items_under_way : List Run → ℕ
items_under_way [] = 0
items_under_way (run ∷ runs) =
    (if is_active (status run) then length run.items else 0) + items_under_way runs

total-count_status : (t : RunItemStatus) (s : Stats) → total (count_status t s) ≡ total s + 1
total-count_status RunItemStatus.pending s = omega arith
total-count_status RunItemStatus.submitted s = omega arith
total-count_status RunItemStatus.queued s = omega arith
total-count_status RunItemStatus.running s = omega arith
total-count_status RunItemStatus.settling s = omega arith
total-count_status RunItemStatus.completed s = omega arith
total-count_status RunItemStatus.failed s = omega arith
total-count_status RunItemStatus.dep_failed s = omega arith

total-count_items :
    (items : List RunItem) (s : Stats) → total (count_items items s) ≡ total s + length items
unfolding count_items
total-count_items [] s = omega arith
total-count_items (i ∷ items) s =
    omega (arith, total-count_items items (count_status i.status s), total-count_status i.status s)

total-count_runs :
    (runs : List Run) (s : Stats) → total (count_runs runs s) ≡ total s + items_under_way runs
unfolding count_runs
total-count_runs [] s = omega arith
total-count_runs (run ∷ runs) s = elim (Bool-cases (is_active (status run))) [
  | inl going ↦
      let begun = record s { active_runs = s.active_runs + 1 } in
      rw (going, count_runs, items_under_way)
        (omega (
          arith,
          total-count_runs runs (count_items run.items begun),
          total-count_items run.items begun,
        ))
  | inr over ↦ rw (over, count_runs, items_under_way) (omega (arith, total-count_runs runs s))
]

-- The progress that is pushed counts each item of an active run exactly once, and no other.
pub total-compute_stats : (runs : List Run) → total (compute_stats runs) ≡ items_under_way runs
unfolding compute_stats
total-compute_stats runs = omega (arith, total-count_runs runs)
