-- ===== src/Usage/Ledger.antt =====
-- `UsageLog.record` of src/scripthut/runs/usage.py and what is read after it.
use scripthut.Common.{
  ℕ, ◌≡◌, refl, sym, ap, ◌∙◌, inl, inr, Bool, true, false, not, ◌&&◌, ◌||◌, Option, none, some,
  List, [], ◌∷◌, ◌++◌, map, keep, arith, eq_refl, Bool-cases, All, append-nil, length,
}
use scripthut.Model.{Run}
use scripthut.Storage.Json.{Json, ◌>>=◌, nullable-text}
use scripthut.Storage.Tasks.{Codec, ReadsBack}
use scripthut.Usage.{
  UsageRecord, UsageLog, Key, key, knows, records_from_runs, parse_document, dump, read_lines,
  known_keys, is_terminal, pending_records, write_pending, record_runs,
}

-- The cached keys are those of the file.
abbrev pub Cached : Codec → UsageLog → Type 0
Cached codec log =
    (k : Key) → knows (known_keys codec log) k ≡ knows (map key (read_lines codec log.lines)) k

knows-append : (a b : List Key) (k : Key) → knows (a ++ b) k ≡ (knows a k || knows b k)
knows-append [] b k = refl
knows-append (j ∷ a) b k = ground (arith, knows-append a b k)

map-key-append : (xs ys : List UsageRecord) → map key (xs ++ ys) ≡ map key xs ++ map key ys
map-key-append [] ys = refl
map-key-append (x ∷ xs) ys = ap (λ ks. key x ∷ ks) (map-key-append xs ys)

knows-All : (rs : List UsageRecord) → All (λ r. knows (map key rs) (key r) ≡ true) rs
knows-All [] = tt
knows-All (r ∷ rs) = (ground (arith, eq_refl r.run_id, eq_refl r.task_id), widen rs (knows-All rs))
  where
    widen :
        (xs : List UsageRecord)
        → All (λ x. knows (map key rs) (key x) ≡ true) xs
        → All (λ x. knows (map key (r ∷ rs)) (key x) ≡ true) xs
    widen [] h = tt
    widen (x ∷ xs) h = (ground (arith, h.0), widen xs h.1)

-- Nothing is pending once the keys of the pending records are known.
none_pending :
    (p q : UsageRecord → Bool) (known : List Key) (rs : List UsageRecord)
    → ((r : UsageRecord) → q r ≡ true → (p r ≡ true) × (knows known (key r) ≡ false))
    → All (λ r. knows known (key r) ≡ true) (keep p rs)
    → keep q rs ≡ []
none_pending p q known [] f h = refl
none_pending p q known (r ∷ rs) f h = elim (Bool-cases (q r)) [
  | inr old ↦ elim (Bool-cases (p r)) [
    | inl kept ↦ rw (keep, old) (none_pending p q known rs f (rw (keep, kept) at h).1)
    | inr gone ↦ rw (keep, old) (none_pending p q known rs f (rw (keep, gone) at h))
  ]
  | inl new ↦ let (kept, strange) = f r new in cc (sym (rw (keep, kept) at h).0 ∙ strange)
]

pending_again :
    (known : List Key) (runs : List Run)
    → pending_records (known ++ map key (pending_records known runs)) runs ≡ []
pending_again known runs =
    none_pending (λ r. is_terminal r && not (knows known (key r)))
      (λ r. is_terminal r && not (knows (known ++ map key found) (key r))) (known ++ map key found)
      (records_from_runs runs)
      (λ r h. ground (arith, h, knows-append known (map key found) (key r)))
      (widen found (knows-All found))
  where
    found : List UsageRecord
    found = pending_records known runs

    widen :
        (xs : List UsageRecord)
        → All (λ x. knows (map key found) (key x) ≡ true) xs
        → All (λ x. knows (known ++ map key found) (key x) ≡ true) xs
    widen [] h = tt
    widen (x ∷ xs) h =
        (ground (arith, h.0, knows-append known (map key found) (key x)), widen xs h.1)

module _ (codec : Codec) (back : ReadsBack codec) where
  parse_document-dump : (r : UsageRecord) → parse_document codec (dump codec r) ≡ some r
  unfolding parse_document dump ◌>>=◌
  parse_document-dump r = times r.finished_at
    where
      times :
          (o : Option ℕ)
          → parse_document codec (dump codec (record r { finished_at = o }))
            ≡ some (record r { finished_at = o })
      times none = rw (back.time_back r.started_at, nullable-text r.source_name) refl
      times (some n) =
          rw
            (
              back.time_back r.started_at,
              back.time_back n,
              back.time_shown n,
              nullable-text r.source_name,
            )
            refl

  read_line :
      (v : Json) (r : UsageRecord) (lines : List (Option Json))
      → parse_document codec v ≡ some r
      → read_lines codec (some v ∷ lines) ≡ r ∷ read_lines codec lines
  unfolding read_lines
  read_line v r lines e = rw (read_lines, e) refl

  read_lines-append :
      (lines : List (Option Json)) (rs : List UsageRecord)
      → read_lines codec (lines ++ map (λ r. some (dump codec r)) rs) ≡ read_lines codec lines ++ rs
  unfolding read_lines
  read_lines-append [] [] = refl
  read_lines-append [] (r ∷ rs) =
      read_line (dump codec r) r (map (λ x. some (dump codec x)) rs) (parse_document-dump r)
      ∙ ap (λ xs. r ∷ xs) (read_lines-append [] rs)
  read_lines-append (none ∷ lines) rs = read_lines-append lines rs
  read_lines-append (some v ∷ lines) rs =
      added _ _ (read_lines-append lines rs) (parse_document codec v)
    where
      added :
          (xs ys : List UsageRecord)
          → xs ≡ ys ++ rs
          → (o : Option UsageRecord)
          → (elim o [ none ↦ xs | some r ↦ r ∷ xs ])
            ≡ (elim o [ none ↦ ys | some r ↦ r ∷ ys ]) ++ rs
      added xs ys h none = h
      added xs ys h (some r) = ap (λ zs. r ∷ zs) h

  -- What a log is after `record`.
  pub record Recorded (log : UsageLog) (runs : List Run) (out : UsageLog × ℕ) : Type 0 where
    pub on_file :
        read_lines codec (out.0).lines
        ≡ read_lines codec log.lines ++ pending_records (known_keys codec log) runs
    pub counted : out.1 ≡ length (pending_records (known_keys codec log) runs)
    pub is_cached : Cached codec out.0
    pub again : record_runs codec true out.0 runs ≡ (out.0, 0)

  -- An empty list of pending records appends nothing.
  record_again :
      (writable : Bool) (log : UsageLog) (known : List Key) (runs : List Run)
      → pending_records known runs ≡ []
      → record_runs codec writable (record log { keys = some known }) runs
        ≡ (record log { keys = some known }, 0)
  unfolding record_runs
  record_again writable log known runs e = rw (e) refl

  -- Where datetime reads back what it writes, the cached keys are those of the file and the file can
  -- be written, `record` appends the pending records to what the file reads as, returns their number,
  -- caches the keys of the new file, and does nothing when it is called again with the same runs.
  pub record_runs-Recorded :
      (log : UsageLog) (runs : List Run)
      → Cached codec log
      → Recorded log runs (record_runs codec true log runs)
  unfolding record_runs
  record_runs-Recorded log runs cached = wrote (pending_records known runs) refl
    where
      known : List Key
      known = known_keys codec log

      again_none :
          {found : List UsageRecord}
          → pending_records known runs ≡ found
          → pending_records (known ++ map key found) runs ≡ []
      again_none e =
          ap (λ xs. pending_records (known ++ map key xs) runs) (sym e) ∙ pending_again known runs

      more_cached :
          (found : List UsageRecord) (k : Key)
          → knows (known ++ map key found) k
            ≡ knows
                (map key (read_lines codec (log.lines ++ map (λ r. some (dump codec r)) found)))
                k
      more_cached found k =
          knows-append known (map key found) k
          ∙ ap (λ b. b || knows (map key found) k) (cached k)
          ∙ sym (knows-append (map key (read_lines codec log.lines)) (map key found) k)
          ∙ ap (λ ks. knows ks k) (sym (map-key-append (read_lines codec log.lines) found))
          ∙ ap (λ xs. knows (map key xs) k) (sym (read_lines-append log.lines found))

      wrote :
          (found : List UsageRecord)
          → pending_records known runs ≡ found
          → Recorded log runs (write_pending codec true log known found)
      wrote [] e = record {
        on_file =
            sym (append-nil (read_lines codec log.lines))
            ∙ ap (λ xs. read_lines codec log.lines ++ xs) (sym e);
        counted = ap length (sym e);
        is_cached = cached;
        again = record_again true log known runs e;
      }
      wrote (r ∷ rs) e = record {
        on_file =
            read_lines-append log.lines (r ∷ rs)
            ∙ ap (λ xs. read_lines codec log.lines ++ xs) (sym e);
        counted = ap length (sym e);
        is_cached = more_cached (r ∷ rs);
        again =
            record_again true
              (record { lines = log.lines ++ map (λ x. some (dump codec x)) (r ∷ rs); keys = none })
              (known ++ map key (r ∷ rs)) runs (again_none e);
      }
