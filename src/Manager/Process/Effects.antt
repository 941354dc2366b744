-- ===== src/Manager/Process/Effects.antt =====
-- What `process_run` as a whole changes.
use mathlib.Core.Option
use scripthut.Common.{
  ℕ, zero, suc, ◌≡◌, refl, ap, subst, Bool, true, Option, none, some, List, [], ◌∷◌, ◌++◌, arith,
  All, Pointwise, take, Delivers, Delivers-map, &&-split, All-take,
}
use scripthut.Model.{RunItem, Run, is_pending}
use scripthut.Manager.World.{World}
use scripthut.Manager.Cascade.{fail_dep}
use scripthut.Manager.Cascade.Pass.{Cascaded}
use scripthut.Manager.Cascade.Fixpoint.{Settled, cascade-Settled}
use scripthut.Manager.Slots.{is_ready, slots_available}
use scripthut.Manager.Process.{
  ready_places, after_all, submit_ready, submit_pass, finish, process_run,
}
use scripthut.Manager.Process.Frame.{Kept, Extends, Extends-refl, Extends-trans, RunExtends}
use scripthut.Manager.Process.Places.{
  ReadyAt, ready_places-ReadyAt, AtPlace-map, submit_loop-Extends,
}
use scripthut.Manager.Process.Hooks.{after_all-Extends}

Cascaded-Kept : (now : ℕ) (a b : RunItem) → Cascaded now a b → Kept (λ _. true) a b
unfolding fail_dep
Cascaded-Kept now a b c = ground arith

cascade-Extends :
    (now : ℕ) (xs ys : List RunItem) → Pointwise (Cascaded now) xs ys → Extends (λ _. true) xs ys
cascade-Extends now [] ys h = tt
cascade-Extends now (x ∷ xs) [] h = elim h [ ]
cascade-Extends now (x ∷ xs) (y ∷ ys) h = (Cascaded-Kept now x y h.0, cascade-Extends now xs ys h.1)

is_ready-pending :
    (items : List RunItem) (a : RunItem) → is_ready items a ≡ true → is_pending a.status ≡ true
unfolding is_ready
is_ready-pending items a h = (&&-split (is_pending a.status) _ h).0

-- What one pass does: the cascade settles, and then only items that are ready in the settled list
-- are started, the restored ones among them.
pub record PassOk (w : World) (run submitted : Run) (hits : List ℕ) : Type 0 where
  pub settled : List RunItem
  pub settles : Settled w.now run.items settled
  pub only_ready : Extends (is_ready settled) settled submitted.items
  pub hits_ready : All (ReadyAt (is_ready settled) settled) hits

module _ (w : World) (before after : List Run) (fair_share : Bool) where
  submit_ready-Extends :
      (run : Run)
      → Extends (is_ready run.items) run.items (submit_ready w before after fair_share run).0.items
        × All
            (ReadyAt (is_ready run.items) run.items)
            (submit_ready w before after fair_share run).1
  unfolding submit_ready
  submit_ready-Extends run =
      let slots =
        slots_available (before ++ run ∷ after) run (w.backend_cap run.backend_name) fair_share in
      let ready = is_ready run.items in
      submit_loop-Extends w ready run.items run (take slots (ready_places ready 0 run.items))
        (All-take _ slots _ (ready_places-ReadyAt ready (is_ready-pending run.items) run.items))
        (Extends-refl ready run.items)

  -- A pass always returns. It starts only items that are pending and whose dependencies have all
  -- completed when the cascade has settled, and it leaves every item alone that is not pending.
  pub submit_pass-PassOk :
      (run : Run)
      → (submitted : Run) × (hits : List ℕ) × (submit_pass w before after fair_share run
          ≡ some (submitted, hits))
        × PassOk w run submitted hits
  unfolding submit_pass
  submit_pass-PassOk run =
      let (items, found, s) = cascade-Settled w.now run.items in
      let cascaded = record run { items = items } in
      let result = submit_ready w before after fair_share cascaded in
      let (kept, hits_ready) = submit_ready-Extends cascaded in
      (
        result.0,
        result.1,
        ap
            (Option.map (λ (l : List RunItem).
              submit_ready w before after fair_share (record run { items = l })))
            found,
        record { settled = items; settles = s; only_ready = kept; hits_ready = hits_ready },
      )

weaken :
    (ready : RunItem → Bool) (xs ys : List RunItem)
    → Extends ready xs ys
    → Extends (λ _. true) xs ys
weaken ready [] ys h = tt
weaken ready (x ∷ xs) [] h = elim h [ ]
weaken ready (x ∷ xs) (y ∷ ys) h = (Kept-weaken, weaken ready xs ys h.1)
  where
    Kept-weaken : Kept (λ _. true) x y
    Kept-weaken = ground (arith, h.0)

ReadyAt-weaken :
    (ready : RunItem → Bool) (xs : List RunItem) (ks : List ℕ)
    → All (ReadyAt ready xs) ks
    → All (ReadyAt (λ _. true) xs) ks
ReadyAt-weaken ready xs [] h = tt
ReadyAt-weaken ready xs (k ∷ ks) h =
    (AtPlace-map _ _ xs k (λ a p. (p.0, refl)) h.0, ReadyAt-weaken ready xs ks h.1)

module _ (w : World) (again drive : Run → Option Run)
    (on : (r : Run) → Delivers (RunExtends r) (again r))
    (driven : (r : Run) → Delivers (RunExtends r) (drive r)) (xs : List RunItem) where
  finish-Extends :
      (sent : Run) (hits : List ℕ)
      → Extends (λ _. true) xs sent.items
      → All (ReadyAt (λ _. true) xs) hits
      → Delivers (λ r. Extends (λ _. true) xs r.items) (finish w again drive sent hits)
  finish-Extends sent [] h p = h
  finish-Extends sent (k ∷ ks) h p =
      go (after_all w drive sent (k ∷ ks)) (after_all-Extends w drive driven xs sent (k ∷ ks) p h)
    where
      go :
          (o : Option Run)
          → Delivers (λ r. Extends (λ _. true) xs r.items) o
          → Delivers
              (λ r. Extends (λ _. true) xs r.items)
              (elim o [ none ↦ none | some hooked ↦ again hooked ])
      go none g = tt
      go (some r) g =
          Delivers-map _ _ (again r) (λ r'. Extends-trans (λ _. true) xs r.items r'.items g) (on r)

module _ (w : World) (before after : List Run) where
  process_run-Extends :
      (fuel : ℕ) (fair_share : Bool) (run : Run)
      → Delivers (RunExtends run) (process_run w fuel before after fair_share run)
  unfolding process_run
  process_run-Extends zero fair_share run = tt
  process_run-Extends (suc fuel) fair_share run =
      let (sent, hits, found, p) = submit_pass-PassOk w before after fair_share run in
      let fits =
        finish-Extends w (process_run w fuel before after fair_share)
          (process_run w fuel before after true) (process_run-Extends fuel fair_share)
          (process_run-Extends fuel true) p.settled sent hits
          (weaken (is_ready p.settled) p.settled sent.items p.only_ready)
          (ReadyAt-weaken (is_ready p.settled) p.settled hits p.hits_ready) in
      rw (found, process_run)
        (Delivers-map _ _ _
          (λ r.
            Extends-trans (λ _. true) run.items p.settled r.items
              (cascade-Extends w.now run.items p.settled p.settles.marks))
          fits)

-- A pass that returns keeps every item of the run in its place, with its task. An item that is not
-- pending is not changed at all. A pending item stays pending, is submitted, is restored from the
-- cache as COMPLETED, or has FAILED or DEP_FAILED.
pub process_run-RunExtends :
    (w : World) (fuel : ℕ) (before after : List Run) (fair_share : Bool) (run run' : Run)
    → process_run w fuel before after fair_share run ≡ some run'
    → RunExtends run run'
process_run-RunExtends w fuel before after fair_share run run' e =
    subst (Delivers (RunExtends run)) e (process_run-Extends w before after fuel fair_share run)
