-- ===== src/Notifications/Scans.antt =====
-- Repeated scans of src/scripthut/notifications.py.
use scripthut.Common.{
  String, ◌≡◌, refl, ap, ◌∙◌, false, some, List, [], ◌∷◌, if◌then◌else◌, ◌==◌, elem, arith, eq_iff,
  eq_refl, All, IsDistinct, ||-false,
}
use scripthut.Common.Dict.{get, put, get-put}
use scripthut.Model.{RunItem, Run}
use scripthut.Model.Status.{status}
use scripthut.Notifications.{
  Hub, is_failed, failure_key, broadcast, scan_items, scan_status, scan, prime_items, prime_runs,
  prime, update_stats, add_key,
}
use scripthut.Notifications.Edges.{
  run_ids, Known, Told, Remembers, Known-Remembers, scan-Told, scan_items-effect,
  scan_status-effect,
}

-- The runs with other ids are left alone, and no failure is forgotten.
abbrev Later : List Run → Hub → Hub → Type 0
Later runs hub hub' =
    Remembers hub.notified_failures hub'.notified_failures
    × ((id : String)
        → elem id (run_ids runs) ≡ false
        → get hub'.run_status id ≡ get hub.run_status id)

Told-Later :
    (runs : List Run) (hub hub' : Hub) (run : Run)
    → Later runs hub hub'
    → elem run.id (run_ids runs) ≡ false
    → Told hub run
    → Told hub' run
Told-Later runs hub hub' run (keeps, same) new (known, at) =
    (Known-Remembers _ _ run run.items keeps known, same run.id new ∙ at)

scan_run-effect :
    (run : Run) (hub : Hub)
    → Told (scan_status run (scan_items run run.items hub)) run
      × Later (run ∷ []) hub (scan_status run (scan_items run run.items hub))
scan_run-effect run hub =
    let seen = scan_items run run.items hub in
    let (same, keeps, known) = scan_items-effect run run.items hub in
    let (same_keys, at) = scan_status-effect run seen in
    (
      (
        rw same_keys known,
        at run.id
            ∙ ap (λ b. if b then some (status run) else get seen.run_status run.id)
                (eq_refl run.id),
      ),
      (
        rw same_keys keeps,
        λ id new.
            let differs : (run.id == id) ≡ false =
              ground (arith, new, eq_iff run.id id, eq_iff id run.id) in
            at id
            ∙ ap (λ b. if b then some (status run) else get seen.run_status id) differs
            ∙ ap (λ d. get d id) same,
      ),
    )

scan-effect :
    (runs : List Run) (hub : Hub)
    → IsDistinct (run_ids runs)
    → All (Told (scan runs hub)) runs × Later runs hub (scan runs hub)
unfolding scan
scan-effect [] hub h = (tt, ((λ k e. e), (λ id e. refl)))
scan-effect (run ∷ runs) hub (new, h) =
    let hub1 = scan_status run (scan_items run run.items hub) in
    let (told, (keeps, same)) = scan_run-effect run hub in
    let (tolds, (keeps', same')) = scan-effect runs hub1 h in
    (
      (Told-Later runs hub1 (scan runs hub1) run (keeps', same') new told, tolds),
      (
        (λ k e. keeps' k (keeps k e)),
        λ id e.
            let (differs, rest) = ||-false (id == run.id) (elem id (run_ids runs)) e in
            same' id rest ∙ same id (rw differs refl),
      ),
    )

-- A second scan of the same runs, whose ids are distinct, changes nothing of the hub: no queue gets a
-- message, and no status and no announced failure is noted.
pub scan-scan :
    (runs : List Run) (hub : Hub)
    → IsDistinct (run_ids runs)
    → scan runs (scan runs hub) ≡ scan runs hub
scan-scan runs hub h = scan-Told runs (scan runs hub) (scan-effect runs hub h).0

prime_items-effect :
    (run : Run) (items : List RunItem) (keys : List String)
    → Remembers keys (prime_items run items keys)
      × All (Known (prime_items run items keys) run) items
unfolding prime_items
prime_items-effect run [] keys = ((λ k e. e), tt)
prime_items-effect run (i ∷ items) keys =
    let keys1 = if is_failed i.status then add_key (failure_key run i) keys else keys in
    let (keeps, known) = prime_items-effect run items keys1 in
    let first : Known keys1 run i = ground (arith, eq_refl (failure_key run i)) in
    let kept : Remembers keys keys1 = λ k e. ground (arith, e) in
    (
      (λ k e. keeps k (kept k e)),
      ((Known-Remembers keys1 _ run (i ∷ []) keeps (first, tt)).0, known),
    )

prime_runs-effect :
    (runs : List Run) (hub : Hub)
    → IsDistinct (run_ids runs)
    → All (Told (prime_runs runs hub)) runs × Later runs hub (prime_runs runs hub)
unfolding prime_runs
prime_runs-effect [] hub h = (tt, ((λ k e. e), (λ id e. refl)))
prime_runs-effect (run ∷ runs) hub (new, h) =
    let hub1 : Hub = record hub {
      run_status = put hub.run_status run.id (status run);
      notified_failures = prime_items run run.items hub.notified_failures;
    } in
    let (keeps, known) = prime_items-effect run run.items hub.notified_failures in
    let (tolds, (keeps', same')) = prime_runs-effect runs hub1 h in
    let at : get hub1.run_status run.id ≡ some (status run) =
      get-put hub.run_status run.id run.id (status run)
      ∙ ap (λ b. if b then some (status run) else get hub.run_status run.id) (eq_refl run.id) in
    (
      (Told-Later runs hub1 (prime_runs runs hub1) run (keeps', same') new (known, at), tolds),
      (
        (λ k e. keeps' k (keeps k e)),
        λ id e.
            let (differs, rest) = ||-false (id == run.id) (elem id (run_ids runs)) e in
            let differs' : (run.id == id) ≡ false =
              ground (arith, differs, eq_iff run.id id, eq_iff id run.id) in
            same' id rest
            ∙ (get-put hub.run_status run.id id (status run)
                ∙ ap (λ b. if b then some (status run) else get hub.run_status id) differs'),
      ),
    )

-- After `prime`, a scan of the same runs, whose ids are distinct, changes nothing of the hub.
pub scan-prime :
    (runs : List Run) (hub : Hub)
    → IsDistinct (run_ids runs)
    → scan runs (prime runs hub) ≡ prime runs hub
unfolding prime update_stats broadcast
scan-prime runs hub h = scan-Told runs (prime runs hub) (prime_runs-effect runs hub h).0
