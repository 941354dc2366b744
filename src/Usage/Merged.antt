-- ===== src/Usage/Merged.antt =====
-- `merged_records` of src/scripthut/runs/usage.py: which records have a key.
use scripthut.Common.{
  ℕ, ◌≡◌, refl, append-nil, sym, ap, ◌∙◌, inl, inr, Bool, true, false, not, ◌||◌, Option, none,
  some, List, [], ◌∷◌, ◌++◌, map, keep, if◌then◌else◌, arith, eq_refl, eq_iff, Bool-cases,
}
use scripthut.Model.{Run}
use scripthut.Storage.Tasks.{Codec}
use scripthut.Usage.{
  UsageRecord, UsageLog, Key, key, same_key, knows, records_from_runs, read_lines, records,
  is_since, put_record, live_records, merged_records,
}

-- The records with a key.
abbrev pub having : Key → List UsageRecord → List UsageRecord
having k rs = keep (λ r. same_key k (key r)) rs

-- The last record with a key, where one comes after the others.
abbrev later : Key → Option UsageRecord → List UsageRecord → Option UsageRecord
later k found [] = found
later k found (r ∷ rs) = later k (if same_key k (key r) then some r else found) rs

abbrev pub latest : Key → List UsageRecord → Option UsageRecord
latest k rs = later k none rs

abbrev alone : Option UsageRecord → List UsageRecord
alone none = []
alone (some r) = r ∷ []

same_key-eq : (a b : Key) → same_key a b ≡ true → a ≡ b
same_key-eq (a, b) (c, d) e =
    let first : a ≡ c = (eq_iff a c).0 (ground (arith, e)) in
    let second : b ≡ d = (eq_iff b d).0 (ground (arith, e)) in
    let left : Path Key (a, b) (c, b) = ap (λ x. (x, b)) first in
    let right : Path Key (c, b) (c, d) = ap (λ x. (c, x)) second in left ∙ right

same_key_refl : (a : Key) → same_key a a ≡ true
same_key_refl (a, b) = rw (eq_refl a, eq_refl b) refl

same_key-turn : (a b : Key) → same_key a b ≡ false → same_key b a ≡ false
same_key-turn a b h = elim (Bool-cases (same_key b a)) [
  | inr e ↦ e
  | inl e ↦
      let turned : same_key a b ≡ true =
        ap (λ j. same_key a j) (same_key-eq b a e) ∙ same_key_refl a in
      cc (sym turned ∙ h)
]

having-append :
    (k : Key) (xs ys : List UsageRecord) → having k (xs ++ ys) ≡ having k xs ++ having k ys
having-append k [] ys = refl
having-append k (x ∷ xs) ys = elim (Bool-cases (same_key k (key x))) [
  | inl e ↦ rw (keep, e) (ap (λ zs. x ∷ zs) (having-append k xs ys))
  | inr e ↦ rw (keep, e) (having-append k xs ys)
]

-- A record of another key.
having-put_other :
    (k : Key) (live : List UsageRecord) (r : UsageRecord)
    → same_key k (key r) ≡ false
    → having k (put_record live r) ≡ having k live
unfolding put_record
having-put_other k [] r h = rw (keep, h) refl
having-put_other k (s ∷ live) r h = elim (Bool-cases (same_key (key s) (key r))) [
  | inl e ↦
      (let other : same_key k (key s) ≡ false =
          ap (same_key k) (same_key-eq (key s) (key r) e) ∙ h in
        rw (e, keep, h, other) refl)
  | inr e ↦ elim (Bool-cases (same_key k (key s))) [
    | inl x ↦ rw (e, keep, x) (ap (λ zs. s ∷ zs) (having-put_other k live r h))
    | inr x ↦ rw (e, keep, x) (having-put_other k live r h)
  ]
]

-- A record of the same key, where there is at most one.
having-put_same :
    (k : Key) (live : List UsageRecord) (r : UsageRecord) (found : Option UsageRecord)
    → same_key k (key r) ≡ true
    → having k live ≡ alone found
    → having k (put_record live r) ≡ r ∷ []
unfolding put_record
having-put_same k [] r found h e = rw (keep, h) refl
having-put_same k (s ∷ live) r found h e = elim (Bool-cases (same_key k (key s))) [
  | inl x ↦
      let same : same_key (key s) (key r) ≡ true =
        ap (λ j. same_key j (key r)) (sym (same_key-eq k (key s) x)) ∙ h in
      let tail_empty : having k live ≡ [] = only s (having k live) found (rw (keep, x) at e) in
      rw (same, keep, h, tail_empty) refl
  | inr x ↦
      let other : same_key (key s) (key r) ≡ false =
        ap (same_key (key s)) (sym (same_key-eq k (key r) h)) ∙ same_key-turn k (key s) x in
      rw (other, keep, x) (having-put_same k live r found h (rw (keep, x) at e))
]
  where
    only :
        (s : UsageRecord) (rest : List UsageRecord) (found : Option UsageRecord)
        → s ∷ rest ≡ alone found
        → rest ≡ []
    only s rest none e = cc e
    only s rest (some r) e = cc e

live_records-later :
    (k : Key) (rs live : List UsageRecord) (found : Option UsageRecord)
    → having k live ≡ alone found
    → having k (live_records live rs) ≡ alone (later k found rs)
unfolding live_records
live_records-later k [] live found e = e
live_records-later k (r ∷ rs) live found e = elim (Bool-cases (same_key k (key r))) [
  | inl x ↦
      rw (later, x)
        (live_records-later k rs (put_record live r) (some r) (having-put_same k live r found x e))
  | inr x ↦
      rw (later, x)
        (live_records-later k rs (put_record live r) found (having-put_other k live r x ∙ e))
]

-- The keys of a list, and its records with a key.
knows-having :
    (k : Key) (live : List UsageRecord) (found : Option UsageRecord)
    → having k live ≡ alone found
    → knows (map key live) k ≡ elim found [ none ↦ false | some r ↦ true ]
knows-having k [] none e = refl
knows-having k [] (some r) e = cc e
knows-having k (s ∷ live) found e = elim (Bool-cases (same_key k (key s))) [
  | inl x ↦ met s (having k live) found x (rw (keep, x) at e)
  | inr x ↦ rw (x) (knows-having k live found (rw (keep, x) at e))
]
  where
    met :
        (s : UsageRecord) (rest : List UsageRecord) (found : Option UsageRecord)
        → same_key k (key s) ≡ true
        → s ∷ rest ≡ alone found
        → (same_key k (key s) || knows (map key live) k)
          ≡ elim found [ none ↦ false | some r ↦ true ]
    met s rest none x e = cc e
    met s rest (some r) x e = rw (x) refl

having-keep :
    (k : Key) (keys : List Key) (rs : List UsageRecord)
    → having k (keep (λ r. not (knows keys (key r))) rs)
      ≡ (if knows keys k then [] else having k rs)
having-keep k keys [] = elim (Bool-cases (knows keys k)) [
  | inl e ↦ rw (e) refl
  | inr e ↦ rw (e) refl
]
having-keep k keys (r ∷ rs) = elim (Bool-cases (same_key k (key r))) [
  | inl x ↦
      let same : knows keys (key r) ≡ knows keys k =
        ap (knows keys) (sym (same_key-eq k (key r) x)) in
      elim (Bool-cases (knows keys k)) [
        | inl e ↦ rw (keep, same, e) (having-keep k keys rs ∙ rw (e) refl)
        | inr e ↦ rw (keep, same, e, x) (ap (λ zs. r ∷ zs) (having-keep k keys rs ∙ rw (e) refl))
      ]
  | inr x ↦ elim (Bool-cases (knows keys (key r))) [
    | inl e ↦ rw (keep, e, x) (having-keep k keys rs)
    | inr e ↦ rw (keep, e, x) (having-keep k keys rs)
  ]
]

keep_comm :
    (p q : UsageRecord → Bool) (rs : List UsageRecord) → keep p (keep q rs) ≡ keep q (keep p rs)
keep_comm p q [] = refl
keep_comm p q (r ∷ rs) = ground (arith, keep_comm p q rs)

-- Of a key, the merged records hold the last record of the runs that has it, and no other; where the
-- runs have none, they hold those of the ledger. With a first day, only of these the ones since then.
pub having-merged_records :
    (codec : Codec) (day_of : ℕ → ℕ) (since : Option ℕ) (log : UsageLog) (runs : List Run) (k : Key)
    → having k (merged_records codec day_of since log runs)
      ≡ keep (is_since day_of since) (elim (latest k (records_from_runs runs)) [
        | none ↦ having k (read_lines codec log.lines)
        | some r ↦ r ∷ []
      ])
unfolding merged_records records
having-merged_records codec day_of since log runs k =
    having-append k (keep (λ r. not (knows (map key live) (key r))) (keep since_first ledger))
      (keep since_first live)
    ∙ merge (latest k (records_from_runs runs))
        (live_records-later k (records_from_runs runs) [] none refl)
  where
    live : List UsageRecord
    live = live_records [] (records_from_runs runs)

    ledger : List UsageRecord
    ledger = read_lines codec log.lines

    since_first : UsageRecord → Bool
    since_first r = is_since day_of since r

    has : UsageRecord → Bool
    has r = same_key k (key r)

    merge :
        (found : Option UsageRecord)
        → having k live ≡ alone found
        → having k (keep (λ r. not (knows (map key live) (key r))) (keep since_first ledger))
            ++ having k (keep since_first live)
          ≡ keep since_first (elim found [ none ↦ having k ledger | some r ↦ r ∷ [] ])
    merge none e =
        ap (λ xs. xs ++ having k (keep since_first live))
          (having-keep k (map key live) (keep since_first ledger))
        ∙ rw
            (
              knows-having k live none e,
              keep_comm has since_first ledger,
              keep_comm has since_first live,
              e,
            )
            (append-nil _)
    merge (some r) e =
        ap (λ xs. xs ++ having k (keep since_first live))
          (having-keep k (map key live) (keep since_first ledger))
        ∙ rw (knows-having k live (some r) e, keep_comm has since_first live, e) refl
