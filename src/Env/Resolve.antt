-- ===== src/Env/Resolve.antt =====
-- What the environment rules of src/scripthut/runs/env.py can do to a variable.
use scripthut.Common.{
  String, ◌≡◌, refl, ◌∙◌, Bool, true, false, Option, none, some, List, [], ◌∷◌, arith, Bool-cases,
  inl, inr, ◌⊎◌, if◌then◌else◌, ◌==◌, eq_iff, ◌&&◌,
}
use scripthut.Common.Dict.{Dict, get, put, get-put}
use scripthut.Env.{
  LabeledRule, Provenance, Resolution, is_protected, write, apply_set, apply_append, apply_rule,
  apply_rules, start, resolve_detailed, expand, all_match, own_guard, joined, lookup, add_init,
}

-- What a rule keeps of a resolution: the protected variables, and a trail that ends in each
-- variable's value.
abbrev pub value_of : Option Provenance → Option String
value_of none = none
value_of (some p) = some p.value

abbrev pub Audited : Resolution → Type 0
Audited r = (k : String) → value_of (get r.prov k) ≡ get r.env k

abbrev Protects : Resolution → Resolution → Type 0
Protects r r' =
    ((k : String) → is_protected k ≡ true → get r'.env k ≡ get r.env k) × (Audited r → Audited r')

Protects-trans : (a b c : Resolution) → Protects a b → Protects b c → Protects a c
Protects-trans a b c h k = ((λ x p. k.0 x p ∙ h.0 x p), λ q. k.1 (h.1 q))

put-agrees :
    (d : Dict Provenance) (e : Dict String) (key k : String) (p : Provenance)
    → value_of (get d k) ≡ get e k
    → value_of (get (put d key p) k) ≡ get (put e key p.value) k
put-agrees d e key k p h = rw (get-put d key k p, get-put e key k p.value) (agree (key == k))
  where
    agree :
        (b : Bool)
        → value_of (if b then some p else get d k) ≡ (if b then some p.value else get e k)
    agree true = refl
    agree false = h

module _ (source : String) where
  write-Protects :
      (op key contribution value : String) (r : Resolution)
      → is_protected key ≡ false
      → Protects r (write source op key contribution value r)
  unfolding write
  write-Protects op key contribution value r n = (
    λ k p. ground (arith, get-put r.env key k value, eq_iff key k),
    λ q k. put-agrees r.prov r.env key k _ (q k),
  )

  apply_set-Protects : (sets : Dict String) (r : Resolution) → Protects r (apply_set source sets r)
  unfolding apply_set
  apply_set-Protects [] r = ((λ k p. refl), λ q. q)
  apply_set-Protects ((key, raw) ∷ rest) r = elim (Bool-cases (is_protected key)) [
    | inl p ↦ rw (p, apply_set) (apply_set-Protects rest r)
    | inr n ↦
        let value = expand raw r.env in
        let written = write source "set" key value value r in
        rw (n, apply_set)
          (Protects-trans r written (apply_set source rest written)
            (write-Protects "set" key value value r n) (apply_set-Protects rest written))
  ]

  apply_append-Protects :
      (appends : Dict String) (r : Resolution) → Protects r (apply_append source appends r)
  unfolding apply_append
  apply_append-Protects [] r = ((λ k p. refl), λ q. q)
  apply_append-Protects ((key, raw) ∷ rest) r = elim (Bool-cases (is_protected key)) [
    | inl p ↦ rw (p, apply_append) (apply_append-Protects rest r)
    | inr n ↦
        let contribution = expand raw r.env in
        let value = joined (lookup r.env key) contribution in
        let written = write source "append" key contribution value r in
        rw (n, apply_append)
          (Protects-trans r written (apply_append source rest written)
            (write-Protects "append" key contribution value r n)
            (apply_append-Protects rest written))
  ]

add_init-Protects : (init : String) (r : Resolution) → Protects r (add_init init r)
add_init-Protects init r = elim (Bool-cases (init == "")) [
  | inl e ↦ rw (e, add_init) ((λ k p. refl), λ q. q)
  | inr e ↦ rw (e, add_init) ((λ k p. refl), λ q. q)
]

apply_rule-Protects : (l : LabeledRule) (r : Resolution) → Protects r (apply_rule l r)
unfolding apply_rule
apply_rule-Protects l r =
    elim (Bool-cases (all_match l.extra_guards r.env && own_guard l.rule.if_ r.env)) [
      | inr skips ↦ rw (skips, apply_rule) ((λ k p. refl), λ q. q)
      | inl applies ↦
          let assigned = apply_set l.source l.rule.set r in
          let appended = apply_append l.source l.rule.append assigned in
          rw (applies, apply_rule)
            (Protects-trans r assigned (add_init l.rule.init appended)
              (apply_set-Protects l.source l.rule.set r)
              (Protects-trans assigned appended (add_init l.rule.init appended)
                (apply_append-Protects l.source l.rule.append assigned)
                (add_init-Protects l.rule.init appended)))
    ]

apply_rules-Protects :
    (rules : List LabeledRule) (r : Resolution) → Protects r (apply_rules rules r)
unfolding apply_rules
apply_rules-Protects [] r = ((λ k p. refl), λ q. q)
apply_rules-Protects (l ∷ rules) r =
    Protects-trans r (apply_rule l r) (apply_rules rules (apply_rule l r)) (apply_rule-Protects l r)
      (apply_rules-Protects rules (apply_rule l r))

start-Audited : (seed : Dict String) → Audited (start seed)
unfolding start get
start-Audited [] k = refl
start-Audited ((j, v) ∷ seed) k = ground (arith, start-Audited seed k)

-- Whatever the rules do, a variable whose name starts with `SCRIPTHUT_` has the value of the seed,
-- and none where the seed has none; and for every variable the provenance reports the value that the
-- variable has in the resolved environment.
pub resolve_detailed-Protects :
    (rules : List LabeledRule) (seed : Dict String) (k : String)
    → ((is_protected k ≡ false) ⊎ (get (resolve_detailed rules seed).0 k ≡ get seed k))
      × (value_of (get (resolve_detailed rules seed).2 k) ≡ get (resolve_detailed rules seed).0 k)
unfolding resolve_detailed start
resolve_detailed-Protects rules seed k =
    let kept = apply_rules-Protects rules (start seed) in
    (unless_protected (Bool-cases (is_protected k)), kept.1 (start-Audited seed) k)
  where
    unless_protected :
        (is_protected k ≡ true) ⊎ (is_protected k ≡ false)
        → (is_protected k ≡ false) ⊎ (get (apply_rules rules (start seed)).env k ≡ get seed k)
    unless_protected (inl p) = inr ((apply_rules-Protects rules (start seed)).0 k p)
    unless_protected (inr n) = inl n
