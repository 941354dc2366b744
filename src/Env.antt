-- ===== src/Env.antt =====
-- The resolution of a task's environment rules: src/scripthut/runs/env.py. A Python `dict` is an
-- association list in insertion order; a seed and the dictionaries of a rule have each key once.
pub mod Resolve
pub mod Layers
pub mod Flatten
pub mod Task
use Prim.Native.Char.{Char, code}
use scripthut.Common.{
  ℕ, String, ◌<>◌, Bool, true, false, ◌&&◌, ◌||◌, Option, none, some, List, [], ◌∷◌, ◌++◌,
  if◌then◌else◌, ◌==◌, eqb, leb, map, elem,
}
use scripthut.Common.Dict.{Dict, get, put, update}
use scripthut.Model.{EnvRule, Guard, Expected, one, one_of, TaskDefinition, Stack}

-- A rule with the layer that it came from and the guards of the groups around it.
pub record LabeledRule : Type 0 where
  pub rule : EnvRule
  pub source : String
  pub extra_guards : List Guard

-- The value of a key, and every write to it: its source, the operation and what it contributed.
pub record Provenance : Type 0 where
  pub value : String
  pub ops : List (String × String × String)

abbrev is_letter : ℕ → Bool
is_letter n = (leb 65 n && leb n 90) || ((leb 97 n && leb n 122) || eqb n 95)

-- Whether the character extends the variable name `name`, which may be empty.
abbrev extends_name : String → ℕ → Bool
extends_name name n =
    is_letter n || (leb 48 n && (leb n 57 && (if name == "" then false else true)))

-- How far the match of `_VAR_PATTERN` has come.
pub data Scan : Type 0 where
  text : Scan
  dollar : Scan
  name : String → Scan

-- What was read of a match that failed.
abbrev flush : Scan → String
flush text = ""
flush dollar = "$"
flush (name s) = "${" <> s

abbrev single : Char → String
single c = String.◌∷◌ c String.[]

abbrev pub lookup : Dict String → String → String
lookup env key = elim (get env key) [ none ↦ "" | some v ↦ v ]

abbrev restart : Char → String × Scan
restart c = if eqb (code c) b'$' then ("", dollar) else (single c, text)

-- One character: what is put out, and how far the match is then.
unfoldable pub advance : Dict String → Scan → Char → String × Scan
unfolding get
advance env text c = restart c
advance env dollar c =
    if eqb (code c) b'{' then ("", name "") else ("$" <> (restart c).0, (restart c).1)
advance env (name s) c =
    if extends_name s (code c)
    then ("", name (s <> single c))
    else if eqb (code c) b'}' && (if s == "" then false else true)
    then (lookup env s, text)
    else (flush (name s) <> (restart c).0, (restart c).1)

unfoldable pub expand_from : Dict String → Scan → String → String
unfolding advance
expand_from env scan String.[] = flush scan
expand_from env scan (String.◌∷◌ c s) =
    let (out, scan') = advance env scan c in out <> expand_from env scan' s

-- `_expand`
unfoldable pub expand : String → Dict String → String
unfolding expand_from
expand value env = expand_from env text value

-- The test of one key of a guard: an unset variable equals nothing.
abbrev holds : Option String → Expected → Bool
holds none expected = false
holds (some actual) (one expected) = actual == expected
holds (some actual) (one_of texts) = elem actual texts

-- `_matches`
unfoldable pub matches : Guard → Dict String → Bool
unfolding get
matches [] env = true
matches ((k, expected) ∷ guard) env = holds (get env k) expected && matches guard env

abbrev pub all_match : List Guard → Dict String → Bool
all_match [] env = true
all_match (g ∷ guards) env = matches g env && all_match guards env

abbrev pub own_guard : Option Guard → Dict String → Bool
own_guard none env = true
own_guard (some g) env = matches g env

unfoldable pub is_prefix : String → String → Bool
is_prefix String.[] s = true
is_prefix (String.◌∷◌ c p) String.[] = false
is_prefix (String.◌∷◌ c p) (String.◌∷◌ d s) = eqb (code c) (code d) && is_prefix p s

-- `_is_protected`
unfoldable pub is_protected : String → Bool
unfolding is_prefix
is_protected key = is_prefix "SCRIPTHUT_" key

-- The variables of `resolve_detailed`.
pub record Resolution : Type 0 where
  pub env : Dict String
  pub prov : Dict Provenance
  pub init_parts : List String

-- The audit trail of a key that has none yet is empty.
abbrev ops_of : Option Provenance → List (String × String × String)
ops_of none = []
ops_of (some p) = p.ops

-- A write of `value` to the key, noted in its trail.
unfoldable pub write : String → String → String → String → String → Resolution → Resolution
unfolding get put
write source op key contribution value r =
    let ops = ops_of (get r.prov key) ++ (source, op, contribution) ∷ [] in
    record r {
      env = put r.env key value;
      prov = put r.prov key (record { value = value; ops = ops });
    }

-- The loop over `rule.set`
unfoldable pub apply_set : String → Dict String → Resolution → Resolution
unfolding is_protected expand write
apply_set source [] r = r
apply_set source ((key, raw) ∷ rest) r =
    let value = expand raw r.env in
    apply_set source rest (if is_protected key then r else write source "set" key value value r)

abbrev pub joined : String → String → String
joined existing contribution =
    if existing == "" then contribution else existing <> (":" <> contribution)

-- The loop over `rule.append`
unfoldable pub apply_append : String → Dict String → Resolution → Resolution
unfolding is_protected expand write
apply_append source [] r = r
apply_append source ((key, raw) ∷ rest) r =
    let contribution = expand raw r.env in
    let value = joined (lookup r.env key) contribution in
    apply_append source rest
      (if is_protected key then r else write source "append" key contribution value r)

abbrev pub add_init : String → Resolution → Resolution
add_init init r =
    if init == "" then r else record r { init_parts = r.init_parts ++ expand init r.env ∷ [] }

-- The body of the loop over the rules.
unfoldable pub apply_rule : LabeledRule → Resolution → Resolution
unfolding matches apply_set apply_append expand
apply_rule l r =
    if all_match l.extra_guards r.env && own_guard l.rule.if_ r.env
    then add_init l.rule.init
        (apply_append l.source l.rule.append (apply_set l.source l.rule.set r))
    else r

unfoldable pub apply_rules : List LabeledRule → Resolution → Resolution
unfolding apply_rule
apply_rules [] r = r
apply_rules (l ∷ rules) r = apply_rules rules (apply_rule l r)

-- The first loop: the seed, with its trail.
unfoldable pub start : Dict String → Resolution
start seed = record {
  env = seed;
  prov = map (λ kv. (kv.0, record { value = kv.1; ops = ("seed", "seed", kv.1) ∷ [] })) seed;
  init_parts = [];
}

-- `"\n".join(parts)`
abbrev lines : List String → String
lines [] = ""
lines (s ∷ []) = s
lines (s ∷ t ∷ rest) = s <> ("\n" <> lines (t ∷ rest))

-- `resolve_detailed`, on labeled rules
unfoldable pub resolve_detailed :
    List LabeledRule → Dict String → Dict String × String × Dict Provenance
unfolding apply_rules start
resolve_detailed rules seed =
    let r = apply_rules rules (start seed) in (r.env, lines r.init_parts, r.prov)

-- `resolve`
unfoldable pub resolve : List LabeledRule → Dict String → Dict String × String
unfolding resolve_detailed
resolve rules seed = let (env, init, _) = resolve_detailed rules seed in (env, init)
