-- ===== src/Tests/Documents.antt =====
-- A codec, and small stored runs (src/scripthut/runs/storage.py), on which the theorems are applied.
mod Ledgers
use Prim.Native.Char.{nul}
use mathlib.Core.Option.{none-ne-some}
use scripthut.Common.{
  inl, inr, ℕ, zero, suc, String, ◌≡◌, refl, sym, ap, ◌∙◌, false, ◌==◌, Option, none, some,
  Bool-cases, eq_iff, All, List, [], ◌∷◌,
}
use scripthut.Common.Text.{split, starts_with, drop_prefix}
use scripthut.Model.{EnvRule, Expected, one, one_of, Guard, Stack}
use scripthut.Storage.Json.{
  Json, null, num, str, array, object, field, no_fields, lookup, ◌>>=◌, to_object, to_text, to_num,
  to_text_dict, write_text_dict, required, optional, each_field, write_option, write_list,
  write_dict, each-texts, each_field-write_dict, nullable-text,
}
use scripthut.Storage.Tasks.{Codec, ReadsBack, read_texts, write_texts}
use scripthut.Storage.Runs.{
  derive_source_name, run_to_dict, run_from_dict, stored_run, run_from_dict-to_dict,
}
use scripthut.Storage.Status.{status-run_from_dict}
use scripthut.Model.Status.{status}
use scripthut.Storage.Stable.{run_from_dict-stored_run}
use scripthut.Tests.{a_run, watched}

-- Timestamps in unary.
abbrev pub show_time : ℕ → String
show_time zero = String.◌∷◌ nul String.[]
show_time (suc n) = String.◌∷◌ nul (show_time n)

abbrev pub ticks : String → ℕ
ticks String.[] = 0
ticks (String.◌∷◌ c s) = suc (ticks s)

abbrev pub read_time : String → Option ℕ
read_time String.[] = none
read_time (String.◌∷◌ c s) = some (ticks s)

pub ticks-show_time : (n : ℕ) → ticks (show_time n) ≡ suc n
ticks-show_time zero = refl
ticks-show_time (suc n) = ap suc (ticks-show_time n)

pub read_time-show_time : (n : ℕ) → read_time (show_time n) ≡ some n
read_time-show_time zero = refl
read_time-show_time (suc n) = ap some (ticks-show_time n)

pub show_time-not_empty : (n : ℕ) → (show_time n == "") ≡ false
show_time-not_empty n = elim (Bool-cases (show_time n == "")) [
  | inr e ↦ e
  | inl e ↦
      absurd (
        none-ne-some n (sym (ap read_time ((eq_iff (show_time n) "").0 e)) ∙ read_time-show_time n))
]

abbrev pub expected_value : Expected → Json
expected_value (one s) = str s
expected_value (one_of xs) = array (write_list str xs)

abbrev pub expected_of : Json → Option Expected
expected_of (str s) = some (one s)
expected_of v = elim (read_texts v) [ none ↦ none | some xs ↦ some (one_of xs) ]

pub expected-back : (x : Expected) → expected_of (expected_value x) ≡ some x
unfolding ◌>>=◌
expected-back (one s) = refl
expected-back (one_of xs) = rw (expected_of, each-texts xs) refl

abbrev pub guard_value : Option Guard → Json
guard_value none = null
guard_value (some g) = object (write_dict expected_value g)

abbrev pub guard_of : Json → Option (Option Guard)
guard_of null = some none
guard_of v = elim (to_object v) [
  | none ↦ none
  | some d ↦ elim (each_field expected_of d) [ none ↦ none | some g ↦ some (some g) ]
]

pub guard-back : (g : Option Guard) → guard_of (guard_value g) ≡ some g
guard-back none = refl
guard-back (some g) =
    rw (guard_of, each_field-write_dict expected_of expected_value expected-back g) refl

-- Rules and stacks, dumped with all their fields.
abbrev pub dump_rule : EnvRule → Json
dump_rule r = object (
    field "if" (guard_value r.if_) (
      field "include" (write_texts r.include) (
        field "stacks" (write_texts r.stacks) (
          field "set" (write_text_dict r.set)
            (field "append" (write_text_dict r.append) (field "init" (str r.init) no_fields))))))

abbrev pub validate_rule : Json → Option EnvRule
unfolding ◌>>=◌
validate_rule v = do
  d ← to_object v
  if_ ← required guard_of d "if"
  include ← required read_texts d "include"
  stacks ← required read_texts d "stacks"
  set ← required to_text_dict d "set"
  append ← required to_text_dict d "append"
  init ← required to_text d "init"
  some (record {
    if_ = if_;
    include = include;
    stacks = stacks;
    set = set;
    append = append;
    init = init;
  })

pub rule-back : (r : EnvRule) → validate_rule (dump_rule r) ≡ some r
unfolding ◌>>=◌
rule-back r =
    rw
      (
        guard-back r.if_,
        each-texts r.include,
        each-texts r.stacks,
        each_field-write_dict to_text str (λ s. refl) r.set,
        each_field-write_dict to_text str (λ s. refl) r.append,
      )
      refl

abbrev pub dump_stack : Stack → Json
dump_stack s = object (
    field "name" (str s.name) (
      field "backends" (write_texts s.backends) (
        field "cache_dir" (str s.cache_dir) (
          field "inputs" (write_text_dict s.inputs) (
            field "input_files" (write_texts s.input_files) (
              field "prep" (str s.prep) (
                field "init" (str s.init) (
                  field "cpus" (num s.cpus) (
                    field "memory" (str s.memory) (
                      field "time_limit" (str s.time_limit)
                        (field "partition" (write_option str s.partition) no_fields)))))))))))

abbrev pub validate_stack : Json → Option Stack
unfolding ◌>>=◌
validate_stack v = do
  d ← to_object v
  name ← required to_text d "name"
  backends ← required read_texts d "backends"
  cache_dir ← required to_text d "cache_dir"
  inputs ← required to_text_dict d "inputs"
  input_files ← required read_texts d "input_files"
  prep ← required to_text d "prep"
  init ← required to_text d "init"
  cpus ← required to_num d "cpus"
  memory ← required to_text d "memory"
  time_limit ← required to_text d "time_limit"
  partition ← optional to_text (lookup d "partition")
  some (record {
    name = name;
    backends = backends;
    cache_dir = cache_dir;
    inputs = inputs;
    input_files = input_files;
    prep = prep;
    init = init;
    cpus = cpus;
    memory = memory;
    time_limit = time_limit;
    partition = partition;
  })

pub stack-back : (s : Stack) → validate_stack (dump_stack s) ≡ some s
unfolding ◌>>=◌
stack-back s =
    rw
      (
        each-texts s.backends,
        each_field-write_dict to_text str (λ t. refl) s.inputs,
        each-texts s.input_files,
        nullable-text s.partition,
      )
      refl

abbrev pub a_codec : Codec
a_codec = record {
  dump_rule = dump_rule;
  validate_rule = validate_rule;
  dump_stack = dump_stack;
  validate_stack = validate_stack;
  isoformat = show_time;
  fromisoformat = read_time;
}

abbrev pub a_codec-reads : ReadsBack a_codec
a_codec-reads = record {
  rule_back = rule-back;
  stack_back = stack-back;
  time_back = read_time-show_time;
  time_shown = show_time-not_empty;
}

run_from_dict-to_dict_example :
    run_from_dict a_codec (run_to_dict a_codec (a_run watched)) ≡ some (stored_run (a_run watched))
run_from_dict-to_dict_example = run_from_dict-to_dict a_codec a_codec-reads (a_run watched)

run_from_dict-stored_run_example :
    run_from_dict a_codec (run_to_dict a_codec (stored_run (a_run watched)))
    ≡ some (stored_run (a_run watched))
run_from_dict-stored_run_example =
    run_from_dict-stored_run a_codec a_codec-reads (a_run watched) (stored_run (a_run watched))
      run_from_dict-to_dict_example

status-run_from_dict_example : status (stored_run (a_run watched)) ≡ status (a_run watched)
status-run_from_dict_example =
    status-run_from_dict a_codec a_codec-reads (a_run watched) (stored_run (a_run watched))
      run_from_dict-to_dict_example

-- The shapes that the docstring of `derive_source_name` lists.
derives :
    All
      (λ (shape : String × Option String). derive_source_name shape.0 ≡ shape.1)
      (("lib/fit", some "lib")
        ∷ ("_agent/lib/chat", some "lib")
        ∷ ("_stack/lib/julia", some "lib")
        ∷ ("_stack/julia", none)
        ∷ ("_adhoc/t1", none)
        ∷ ("_adhoc/a/b", none)
        ∷ ("_probe", none)
        ∷ ("fit", none)
        ∷ ("/fit", some "")
        ∷ [])
unfolding derive_source_name split starts_with drop_prefix
derives = (refl, (refl, (refl, (refl, (refl, (refl, (refl, (refl, (refl, tt)))))))))
