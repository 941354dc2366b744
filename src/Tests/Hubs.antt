-- ===== src/Tests/Hubs.antt =====
-- A hub and small runs on which the theorems on src/scripthut/notifications.py are applied.
use scripthut.Common.{ℕ, ◌≡◌, refl, List, [], ◌∷◌, length}
use scripthut.Model.{Run, RunStatus, new_item}
use scripthut.Model.Status.{status}
use scripthut.Notifications.{Hub, Queue, empty_stats, compute_stats, scan, prime}
use scripthut.Notifications.Scans.{scan-scan, scan-prime}
use scripthut.Notifications.Counts.{total, items_under_way, total-compute_stats}
use scripthut.Tests.{a_run, lost_item, watched}

-- One client, and a run that the hub has seen pending.
abbrev a_hub : Hub
a_hub = record {
  subscribers = record { maxsize = 100; messages = [] } ∷ [];
  run_status = ("r0", RunStatus.pending) ∷ [];
  notified_failures = [];
  stats = empty_stats;
}

-- A run that failed, and one that is under way.
abbrev some_runs : List Run
some_runs = record (a_run (lost_item ∷ [])) { id = "r0" } ∷ a_run watched ∷ []

abbrev pushed : Hub → List ℕ
pushed hub = lengths hub.subscribers
  where
    lengths : List Queue → List ℕ
    lengths [] = []
    lengths (q ∷ qs) = length q.messages ∷ lengths qs

-- Two failed tasks and the end of the first run are announced.
three_messages : pushed (scan some_runs a_hub) ≡ 3 ∷ []
unfolding scan status new_item
three_messages = refl

scan-scan_example : scan some_runs (scan some_runs a_hub) ≡ scan some_runs a_hub
scan-scan_example = scan-scan some_runs a_hub (refl, (refl, tt))

scan-prime_example : scan some_runs (prime some_runs a_hub) ≡ prime some_runs a_hub
scan-prime_example = scan-prime some_runs a_hub (refl, (refl, tt))

total-compute_stats_example : total (compute_stats some_runs) ≡ items_under_way some_runs
total-compute_stats_example = total-compute_stats some_runs
