-- ===== src/Manager/Slots.antt =====
-- How many items a pass of `process_run` may submit: the caps of the run and of its backend, and the
-- fair share among the runs that wait (runs/manager.py). Slots may be negative, so they are integers.
use scripthut.Common.{
  ℕ, ◌+◌, ◌≤◌, String, ◌≡◌, ◌⊎◌, Bool, true, false, ◌&&◌, ◌||◌, Option, none, some, List, [], ◌∷◌,
  if◌then◌else◌, keep, any, count, length, ltb, leb, ◌==◌, arith,
}
use scripthut.Common.Int.{ℤ, pos, sub_ℕ, min_ℤ, max_ℤ, floor_div, pos_part}
use scripthut.Model.{RunItem, Run, RunStatus, is_pending, deps_satisfied, running_count}
use scripthut.Model.Status.{status}

-- `item.status == PENDING and run.are_deps_satisfied(item)`
unfoldable pub is_ready : List RunItem → RunItem → Bool
unfolding deps_satisfied
is_ready items item = is_pending item.status && deps_satisfied items item

-- `_has_submittable_items`
unfoldable pub has_submittable_items : Run → Bool
unfolding is_ready
has_submittable_items run = any (is_ready run.items) run.items

-- `status not in (COMPLETED, FAILED, CANCELLED)`
abbrev pub is_active : RunStatus → Bool
is_active RunStatus.pending = true
is_active RunStatus.running = true
is_active _ = false

-- The order of the sort key `(running_count, created_at)`: whether `a` must stand before `b`.
unfoldable pub needier : Run → Run → Bool
unfolding running_count
needier a b =
    ltb (running_count a.items) (running_count b.items)
    || (leb (running_count a.items) (running_count b.items) && ltb a.created_at b.created_at)

-- A stable insertion sort by that key.
unfoldable pub insert_run : Run → List Run → List Run
unfolding needier
insert_run r [] = r ∷ []
insert_run r (s ∷ runs) =
    let rest = insert_run r runs in if needier s r then s ∷ rest else r ∷ s ∷ runs

unfoldable pub sort_runs : List Run → List Run
unfolding insert_run
sort_runs [] = []
sort_runs (r ∷ runs) = insert_run r (sort_runs runs)

-- `_contending_runs`, over the values of the manager's dictionary.
unfoldable pub contending_runs : List Run → String → List Run
unfolding sort_runs has_submittable_items status
contending_runs runs backend_name = sort_runs (
    keep
      (λ r. (r.backend_name == backend_name) && (is_active (status r) && has_submittable_items r))
      runs)

-- `_fair_share_slots`
unfoldable pub fair_share_slots : List Run → Run → ℤ → ℤ
unfolding contending_runs
fair_share_slots runs run backend_slots =
    let contenders = length (contending_runs runs run.backend_name) in
    if leb contenders 1 then backend_slots else max_ℤ (pos 1) (floor_div backend_slots contenders)

-- `_backend_running_count`
unfoldable pub backend_running_count : List Run → String → ℕ
unfolding running_count
backend_running_count [] backend_name = 0
backend_running_count (r ∷ runs) backend_name =
    (if r.backend_name == backend_name then running_count r.items else 0)
    + backend_running_count runs backend_name

-- `_get_backend_max_concurrent`, given what the configuration has.
abbrev pub backend_max_concurrent : Option ℕ → ℕ
backend_max_concurrent (some cap) = cap
backend_max_concurrent none = 100

-- `max(0, min(a, b, c))`
unfoldable pub clamp : ℤ → ℤ → ℤ → ℕ
clamp a b c = pos_part (max_ℤ (pos 0) (min_ℤ a (min_ℤ b c)))

-- The first and the second bound of a clamp hold, unless it is 0.
pub clamp-le_first :
    (m r : ℕ) (b c : ℤ) → (clamp (sub_ℕ m r) b c + r ≤ m) ⊎ (clamp (sub_ℕ m r) b c ≡ 0)
unfolding clamp
clamp-le_first m r b c = ground arith

pub clamp-le_second :
    (m r : ℕ) (a c : ℤ) → (clamp a (sub_ℕ m r) c + r ≤ m) ⊎ (clamp a (sub_ℕ m r) c ≡ 0)
unfolding clamp
clamp-le_second m r a c = ground arith

-- The slots that the run's own cap leaves. Without one, all its ready items may go.
unfoldable pub run_slots : Run → ℤ
unfolding running_count is_ready
run_slots run = elim run.max_concurrent [
  | some m ↦ sub_ℕ m (running_count run.items)
  | none ↦ pos (count (is_ready run.items) run.items)
]

-- The slots that the backend's cap leaves.
unfoldable pub backend_slots : List Run → Run → Option ℕ → ℤ
unfolding backend_running_count
backend_slots runs run backend_cap =
    sub_ℕ (backend_max_concurrent backend_cap) (backend_running_count runs run.backend_name)

unfoldable pub fair_slots : List Run → Run → Option ℕ → Bool → ℤ
unfolding fair_share_slots backend_slots
fair_slots runs run backend_cap fair_share =
    let free = backend_slots runs run backend_cap in
    if fair_share then fair_share_slots runs run free else free

-- `slots_available` in `process_run`. `runs` are the manager's runs, this one among them.
unfoldable pub slots_available : List Run → Run → Option ℕ → Bool → ℕ
unfolding fair_slots backend_slots run_slots clamp
slots_available runs run backend_cap fair_share =
    clamp (run_slots run) (backend_slots runs run backend_cap)
      (fair_slots runs run backend_cap fair_share)
