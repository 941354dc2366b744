-- ===== src/Notifications/Edges.antt =====
-- What a scan of src/scripthut/notifications.py remembers of the runs.
use scripthut.Common.{
  String, ◌≡◌, refl, sym, ap, ◌∙◌, ◌⊎◌, inl, inr, true, false, not, ◌&&◌, Option, none, some, List,
  [], ◌∷◌, map, if◌then◌else◌, ◌==◌, elem, arith, eq_iff, eq_refl, Bool-cases, All,
}
use scripthut.Common.Dict.{get, get-put}
use scripthut.Model.{RunItem, Run, RunStatus}
use scripthut.Model.Status.{status}
use scripthut.Notifications.{
  Hub, is_failed, is_terminal, was_active, is_same, same_status, failure_key, emit, broadcast,
  scan_item, scan_items, scan_status, scan,
}

abbrev pub run_ids : List Run → List String
run_ids runs = map (λ r. r.id) runs

abbrev pub Known : List String → Run → RunItem → Type 0
Known keys run item = (is_failed item.status ≡ false) ⊎ (elem (failure_key run item) keys ≡ true)

-- The hub has announced the failures of the run, and knows its status.
abbrev pub Told : Hub → Run → Type 0
Told hub run =
    All (Known hub.notified_failures run) run.items
    × (get hub.run_status run.id ≡ some (status run))

-- No announced failure is forgotten.
abbrev pub Remembers : List String → List String → Type 0
Remembers keys keys' = (k : String) → elem k keys ≡ true → elem k keys' ≡ true

pub Known-Remembers :
    (keys keys' : List String) (run : Run) (items : List RunItem)
    → Remembers keys keys'
    → All (Known keys run) items
    → All (Known keys' run) items
Known-Remembers keys keys' run [] r h = tt
Known-Remembers keys keys' run (i ∷ items) r (inl fine, hs) =
    (inl fine, Known-Remembers keys keys' run items r hs)
Known-Remembers keys keys' run (i ∷ items) r (inr there, hs) =
    (inr (r (failure_key run i) there), Known-Remembers keys keys' run items r hs)

-- A hub that has been told is not changed.
scan_items-Known :
    (run : Run) (items : List RunItem) (hub : Hub)
    → All (Known hub.notified_failures run) items
    → scan_items run items hub ≡ hub
unfolding scan_items scan_item
scan_items-Known run [] hub h = refl
scan_items-Known run (i ∷ items) hub (inl fine, hs) = rw (fine) (scan_items-Known run items hub hs)
scan_items-Known run (i ∷ items) hub (inr there, hs) = elim (Bool-cases (is_failed i.status)) [
  | inl bad ↦ rw (bad, there) (scan_items-Known run items hub hs)
  | inr fine ↦ rw (fine) (scan_items-Known run items hub hs)
]

same_status_refl : (s : RunStatus) → same_status s s ≡ true
same_status_refl RunStatus.pending = refl
same_status_refl RunStatus.running = refl
same_status_refl RunStatus.completed = refl
same_status_refl RunStatus.failed = refl
same_status_refl RunStatus.cancelled = refl

same_status-eq : (s t : RunStatus) → same_status s t ≡ true → s ≡ t
same_status-eq RunStatus.pending RunStatus.pending h = refl
same_status-eq RunStatus.running RunStatus.running h = refl
same_status-eq RunStatus.completed RunStatus.completed h = refl
same_status-eq RunStatus.failed RunStatus.failed h = refl
same_status-eq RunStatus.cancelled RunStatus.cancelled h = refl
same_status-eq s t h = cc h

pub scan-Told : (runs : List Run) (hub : Hub) → All (Told hub) runs → scan runs hub ≡ hub
unfolding scan scan_status
scan-Told [] hub h = refl
scan-Told (run ∷ runs) hub ((known, at), hs) =
    rw (scan_items-Known run run.items hub known, at, is_same, same_status_refl (status run))
      (scan-Told runs hub hs)

-- What the loop over the items does to the hub.
scan_item-effect :
    (run : Run) (i : RunItem) (hub : Hub)
    → ((scan_item run i hub).run_status ≡ hub.run_status)
      × Remembers hub.notified_failures (scan_item run i hub).notified_failures
      × Known (scan_item run i hub).notified_failures run i
unfolding scan_item emit broadcast
scan_item-effect run i hub =
    elim (Bool-cases (is_failed i.status && not (elem (failure_key run i) hub.notified_failures))) [
      | inl new ↦
          rw (new, scan_item)
            (refl, (λ k h. ground (arith, h)), inr (rw (eq_refl (failure_key run i)) refl))
      | inr old ↦ rw (old, scan_item) (refl, (λ k h. h), ground (arith, old))
    ]

pub scan_items-effect :
    (run : Run) (items : List RunItem) (hub : Hub)
    → ((scan_items run items hub).run_status ≡ hub.run_status)
      × Remembers hub.notified_failures (scan_items run items hub).notified_failures
      × All (Known (scan_items run items hub).notified_failures run) items
unfolding scan_items
scan_items-effect run [] hub = (refl, (λ k h. h), tt)
scan_items-effect run (i ∷ items) hub =
    let (same, keeps, known) = scan_item-effect run i hub in
    let (same', keeps', known') = scan_items-effect run items (scan_item run i hub) in
    (
      same' ∙ same,
      (λ k h. keeps' k (keeps k h)),
      ((Known-Remembers _ _ run (i ∷ []) keeps' (known, tt)).0, known'),
    )

pub scan_status-effect :
    (run : Run) (hub : Hub)
    → ((scan_status run hub).notified_failures ≡ hub.notified_failures)
      × ((id : String)
          → get (scan_status run hub).run_status id
            ≡ (if run.id == id then some (status run) else get hub.run_status id))
unfolding scan_status emit broadcast
scan_status-effect run hub = elim (Bool-cases (is_same (get hub.run_status run.id) (status run))) [
  | inl same ↦
      rw (same, scan_status) (refl, λ id. unchanged (get hub.run_status run.id) id refl same)
  | inr new ↦
      elim (Bool-cases (is_terminal (status run) && was_active (get hub.run_status run.id))) [
        | inl over ↦
            rw (new, over, scan_status) (refl, λ id. get-put hub.run_status run.id id (status run))
        | inr going ↦
            rw (new, going, scan_status) (refl, λ id. get-put hub.run_status run.id id (status run))
      ]
]
  where
    unchanged :
        (o : Option RunStatus) (id : String)
        → get hub.run_status run.id ≡ o
        → is_same o (status run) ≡ true
        → get hub.run_status id
          ≡ (if run.id == id then some (status run) else get hub.run_status id)
    unchanged none id e h = cc h
    unchanged (some prev) id e h = elim (Bool-cases (run.id == id)) [
      | inr differs ↦ rw differs refl
      | inl same ↦ rw same (
          ap (get hub.run_status) (sym ((eq_iff run.id id).0 same))
          ∙ (e ∙ ap some (same_status-eq prev (status run) h)))
    ]
