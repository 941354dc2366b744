-- ===== src/Manager/Process/Places.antt =====
-- What the submission loop changes: places of ready items only.
use scripthut.Common.{
  ℕ, zero, suc, String, ◌≡◌, refl, inl, inr, Bool, true, Option, some, List, [], ◌∷◌, map, arith,
  All, get_elem?, Bool-cases, Option-cases,
}
use scripthut.Model.{RunItem, Run, is_pending}
use scripthut.Manager.World.{World}
use scripthut.Manager.Submit.{submit_task}
use scripthut.Manager.Submit.Outcome.{Submitted, submit_task-Submitted}
use scripthut.Manager.Process.{
  ready_places, halt_item, submit_at, submit_place, submit_loop, hit_at,
}
use scripthut.Manager.Process.Frame.{Kept, Extends, AtPlace, Extends-set, Extends-map}

-- The places of the ready items hold ready items.
abbrev pub ReadyAt : (RunItem → Bool) → List RunItem → ℕ → Type 0
ReadyAt ready = AtPlace (λ a. (is_pending a.status ≡ true) × (ready a ≡ true))

ready_places-suc :
    (ready : RunItem → Bool) (k : ℕ) (xs : List RunItem)
    → ready_places ready (suc k) xs ≡ map suc (ready_places ready k xs)
unfolding ready_places
ready_places-suc ready k [] = refl
ready_places-suc ready k (x ∷ xs) = ground (arith, ready_places-suc ready (suc k) xs)

ReadyAt-suc :
    (ready : RunItem → Bool) (x : RunItem) (xs : List RunItem) (ks : List ℕ)
    → All (ReadyAt ready xs) ks
    → All (ReadyAt ready (x ∷ xs)) (map suc ks)
ReadyAt-suc ready x xs [] h = tt
ReadyAt-suc ready x xs (k ∷ ks) h = (h.0, ReadyAt-suc ready x xs ks h.1)

pub ready_places-ReadyAt :
    (ready : RunItem → Bool)
    → ((a : RunItem) → ready a ≡ true → is_pending a.status ≡ true)
    → (xs : List RunItem) → All (ReadyAt ready xs) (ready_places ready 0 xs)
unfolding ready_places
ready_places-ReadyAt ready p [] = tt
ready_places-ReadyAt ready p (x ∷ xs) =
    let later =
      ReadyAt-suc ready x xs (ready_places ready 0 xs) (ready_places-ReadyAt ready p xs) in
    let rest = rw (← ready_places-suc ready 0 xs) at later in
    elim (Bool-cases (ready x)) [ inl r ↦ rw r ((p x r, r), rest) | inr n ↦ rw n rest ]

module _ (ready : RunItem → Bool) (now : ℕ) (reason : Option String) where
  halt_item-Kept : (a b : RunItem) → Kept ready a b → Kept ready a (halt_item now reason b)
  unfolding halt_item
  halt_item-Kept a b h = ground arith

Submitted-Kept :
    (ready : RunItem → Bool) (a b : RunItem) (r : RunItem × Bool)
    → Submitted b r
    → (is_pending a.status ≡ true) × (ready a ≡ true)
    → Kept ready a b
    → Kept ready a r.0
Submitted-Kept ready a b r s p h = ground arith

pub AtPlace-map :
    (P Q : RunItem → Type 0) (xs : List RunItem) (k : ℕ)
    → ((a : RunItem) → P a → Q a)
    → AtPlace P xs k
    → AtPlace Q xs k
AtPlace-map P Q [] k f h = tt
AtPlace-map P Q (x ∷ xs) zero f h = f x h
AtPlace-map P Q (x ∷ xs) (suc k) f h = AtPlace-map P Q xs k f h

module _ (w : World) (ready : RunItem → Bool) (xs : List RunItem) where
  submit_at-Extends :
      (run : Run) (k : ℕ) (b : RunItem)
      → get_elem? run.items k ≡ some b
      → ReadyAt ready xs k
      → Extends ready xs run.items
      → Extends ready xs (submit_at w run k b).0.items
  unfolding submit_at
  submit_at-Extends run k b e p h =
      let r = submit_task w run b in
      let stored =
        Extends-set ready xs run.items k b r.0 e
          (AtPlace-map _ _ xs k
            (λ a q. Submitted-Kept ready a b r (submit_task-Submitted w run b) q) p)
          h in
      elim (Bool-cases r.1) [
        | inl good ↦ rw good stored
        | inr bad ↦ rw bad (
            Extends-map ready (halt_item w.now r.0.error) (halt_item-Kept ready w.now r.0.error) xs
              _ stored)
      ]

  submit_place-Extends :
      (run : Run) (k : ℕ)
      → ReadyAt ready xs k
      → Extends ready xs run.items
      → Extends ready xs (submit_place w run k).0.items
  submit_place-Extends run k p h = elim (Option-cases (get_elem? run.items k)) [
    | inl e ↦ rw (e, submit_place) h
    | inr (b, e) ↦ rw (e, submit_place) (submit_at-Extends run k b e p h)
  ]

  -- The submission loop changes only places that it was given.
  pub submit_loop-Extends :
      (run : Run) (ks : List ℕ)
      → All (ReadyAt ready xs) ks
      → Extends ready xs run.items
      → Extends ready xs (submit_loop w run ks).0.items
        × All (ReadyAt ready xs) (submit_loop w run ks).1
  unfolding submit_loop
  submit_loop-Extends run [] p h = (h, tt)
  submit_loop-Extends run (k ∷ ks) p h =
      let placed = submit_place-Extends run k p.0 h in
      let later = submit_loop-Extends (submit_place w run k).0 ks p.1 placed in
      elim (Bool-cases (submit_place w run k).1) [
        | inl on ↦ elim (Bool-cases (hit_at w (submit_place w run k).0 k)) [
          | inl hit ↦ rw (on, hit) (later.0, (p.0, later.1))
          | inr miss ↦ rw (on, miss) later
        ]
        | inr off ↦ rw off (placed, tt)
      ]
