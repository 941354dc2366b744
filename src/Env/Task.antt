-- ===== src/Env/Task.antt =====
-- The environment of a task: src/scripthut/runs/env.py as a whole.
use scripthut.Common.{String, ◌≡◌, ◌⊎◌, inl, inr, true, false, List, suc, length, []}
use scripthut.Common.Dict.{Dict, get}
use scripthut.Model.{EnvRule, TaskDefinition, Stack}
use scripthut.Env.{is_protected, resolve, resolve_detailed}
use scripthut.Env.Layers.{
  EnvConfig, Flat, flat, cycle, unknown_stack, out_of_fuel, flatten, collect_rules, collect_groups,
  collect_stacks, resolve_flat, resolve_for_task,
}
use scripthut.Env.Flatten.{IsAnswer, flatten-IsAnswer}
use scripthut.Env.Resolve.{resolve_detailed-Protects}

-- An environment in which the variable is that of the seed, or one of the program's errors.
abbrev pub FromSeed : Dict String → String → Flat ⊎ (Dict String × String) → Type 0
FromSeed seed k (inl e) = IsAnswer e
FromSeed seed k (inr (env, init)) = get env k ≡ get seed k

resolve_flat-FromSeed :
    (f : Flat) (seed : Dict String) (k : String)
    → IsAnswer f
    → is_protected k ≡ true
    → FromSeed seed k (resolve_flat f seed)
unfolding resolve
resolve_flat-FromSeed (flat rules) seed k h p =
    when_protected (resolve_detailed-Protects rules seed k).0
  where
    when_protected :
        (is_protected k ≡ false) ⊎ (get (resolve_detailed rules seed).0 k ≡ get seed k)
        → get (resolve_detailed rules seed).0 k ≡ get seed k
    when_protected (inl n) = cc (n, p)
    when_protected (inr e) = e
resolve_flat-FromSeed (cycle s n) seed k h p = tt
resolve_flat-FromSeed (unknown_stack n s) seed k h p = tt
resolve_flat-FromSeed out_of_fuel seed k h p = h

-- Resolving the environment of a task ends, with an include cycle, with an unknown stack, or with an
-- environment in which each variable whose name starts with `SCRIPTHUT_` is that of the seed,
-- whatever the backend, the server, the document and the task say.
pub resolve_for_task-FromSeed :
    (config : EnvConfig) (backend_name : String) (task : TaskDefinition) (seed : Dict String)
    (doc_env : List EnvRule) (doc_env_groups : Dict (List EnvRule)) (doc_stacks : Dict Stack)
    (k : String)
    → is_protected k ≡ true
    → FromSeed seed k
        (resolve_for_task config backend_name task seed doc_env doc_env_groups doc_stacks)
unfolding resolve_for_task
resolve_for_task-FromSeed config backend_name task seed doc_env doc_env_groups doc_stacks k p =
    let rules = collect_rules config backend_name task doc_env in
    let groups = collect_groups config backend_name doc_env_groups in
    let stacks = collect_stacks config doc_stacks in
    resolve_flat-FromSeed (flatten groups stacks (suc (length groups)) [] rules) seed k
      (flatten-IsAnswer groups stacks rules) p
