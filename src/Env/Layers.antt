-- ===== src/Env/Layers.antt =====
-- The layers of src/scripthut/runs/env.py: the seed, the rules, groups and stacks that apply to a task,
-- and the expansion of included groups and stacks, on fuel for the depth of the inclusion.
use scripthut.Common.{
  ℕ, zero, suc, ◌⊎◌, inl, inr, length, String, ◌<>◌, Bool, not, ◌&&◌, Option, none, some, List, [],
  ◌∷◌, ◌++◌, if◌then◌else◌, ◌==◌, map, elem,
}
use scripthut.Common.Dict.{Dict, get, put, update}
use scripthut.Model.{EnvRule, Guard, TaskDefinition, Stack}
use scripthut.Model.Status.{is_empty}
use scripthut.Env.{LabeledRule, resolve}

-- What the resolver reads of the configuration. `backends` has the `env` and the `env_groups` of each.
pub record EnvConfig : Type 0 where
  pub backends : Dict (List EnvRule × Dict (List EnvRule))
  pub env : List EnvRule
  pub env_groups : Dict (List EnvRule)
  pub stacks : List Stack

abbrev put_some : String → Option String → Dict String → Dict String
put_some key none d = d
put_some key (some v) d = put d key v

-- `build_seed`; `created_at` is the text that `isoformat` gives.
unfoldable pub build_seed :
    String → String → String → String → Option String → Option String → Option String → Dict String
unfolding put
build_seed backend_name workflow_name run_id created_at git_repo git_branch git_sha =
    put_some "SCRIPTHUT_GIT_SHA" git_sha (
      put_some "SCRIPTHUT_GIT_BRANCH" git_branch (
        put_some "SCRIPTHUT_GIT_REPO" git_repo (
          ("SCRIPTHUT_BACKEND", backend_name)
          ∷ ("SCRIPTHUT_WORKFLOW", workflow_name)
          ∷ ("SCRIPTHUT_RUN_ID", run_id)
          ∷ ("SCRIPTHUT_CREATED_AT", created_at)
          ∷ [])))

abbrev label : String → EnvRule → LabeledRule
label source rule = record { rule = rule; source = source; extra_guards = [] }

-- `collect_rules`
unfoldable pub collect_rules : EnvConfig → String → TaskDefinition → List EnvRule → List LabeledRule
unfolding get
collect_rules config backend_name task doc_env =
    (elim (get config.backends backend_name) [
      | none ↦ []
      | some (env, groups) ↦ map (label ("backend:" <> backend_name)) env
    ])
    ++ (map (label "server") config.env
        ++ (map (label "workflow-doc") doc_env ++ map (label "task") task.env))

-- `collect_groups`
unfoldable pub collect_groups : EnvConfig → String → Dict (List EnvRule) → Dict (List EnvRule)
unfolding get update
collect_groups config backend_name doc_env_groups =
    let of_backend : Dict (List EnvRule) = elim (get config.backends backend_name) [
      | none ↦ []
      | some (env, groups) ↦ update [] groups
    ] in
    update (update of_backend config.env_groups) doc_env_groups

abbrev by_name : List Stack → Dict Stack
by_name [] = []
by_name (s ∷ stacks) = (s.name, s) ∷ by_name stacks

-- `collect_stacks`
unfoldable pub collect_stacks : EnvConfig → Dict Stack → Dict Stack
unfolding update
collect_stacks config doc_stacks = update (update [] (by_name config.stacks)) doc_stacks

-- What `flatten` gives: rules, one of its two errors, or no answer on this fuel.
pub data Flat : Type 0 where
  flat : List LabeledRule → Flat
  cycle : List String → String → Flat
  unknown_stack : String → String → Flat
  out_of_fuel : Flat

-- One part after the other: the first error stands.
abbrev pub followed_by : Flat → Flat → Flat
followed_by (flat xs) (flat ys) = flat (xs ++ ys)
followed_by (flat xs) later = later
followed_by sooner later = sooner

abbrev own_guards : LabeledRule → List Guard
own_guards l = elim l.rule.if_ [ none ↦ l.extra_guards | some g ↦ l.extra_guards ++ g ∷ [] ]

-- A rule of an included group.
abbrev pub wrap : LabeledRule → String → EnvRule → LabeledRule
wrap l name rule = record {
  rule = rule;
  source = l.source <> (" via group:" <> name);
  extra_guards = own_guards l;
}

-- The rule that stands for a stack.
abbrev pub stack_rule : LabeledRule → String → Stack → LabeledRule
stack_rule l name stack = record {
  rule = record { if_ = none; include = []; stacks = []; set = []; append = []; init = stack.init };
  source = l.source <> (" via stack:" <> name);
  extra_guards = own_guards l;
}

module _ (groups : Dict (List EnvRule)) (stacks : Dict Stack) where
  module _ (deeper : List String → List LabeledRule → Flat) (seen : List String) where
    -- The loop over `include`, where `deeper` is the recursive call. An unknown group is passed over.
    unfoldable pub include_groups : LabeledRule → List String → Flat
    unfolding get
    include_groups l [] = flat []
    include_groups l (name ∷ names) =
        let rest = include_groups l names in
        if elem name seen then cycle seen name else (elim (get groups name) [
          | none ↦ rest
          | some rules ↦ followed_by (deeper (name ∷ seen) (map (wrap l name) rules)) rest
        ])

    -- The loop over `stacks`.
    unfoldable pub include_stacks : LabeledRule → List String → Flat
    unfolding get
    include_stacks l [] = flat []
    include_stacks l (name ∷ names) =
        let rest = include_stacks l names in
        elim (get stacks name) [
          | none ↦ unknown_stack name l.source
          | some stack ↦
              if stack.init == ""
              then rest
              else followed_by (flat (stack_rule l name stack ∷ [])) rest
        ]

    -- `lr.rule.set or lr.rule.append or lr.rule.init`
    abbrev contributes : EnvRule → Bool
    contributes rule = not (is_empty rule.set && (is_empty rule.append && (rule.init == "")))

    -- The loop over the rules.
    unfoldable pub flatten_rules : List LabeledRule → Flat
    unfolding include_groups include_stacks
    flatten_rules [] = flat []
    flatten_rules (l ∷ rules) = followed_by (include_groups l l.rule.include) (
        followed_by (include_stacks l l.rule.stacks)
          (followed_by (flat (if contributes l.rule then l ∷ [] else [])) (flatten_rules rules)))

  -- `flatten`
  unfoldable pub flatten : ℕ → List String → List LabeledRule → Flat
  unfolding flatten_rules
  flatten zero seen rules = out_of_fuel
  flatten (suc fuel) seen rules = flatten_rules (flatten fuel) seen rules

-- What the flattened rules resolve to, or the error that ended the expansion.
abbrev pub resolve_flat : Flat → Dict String → Flat ⊎ (Dict String × String)
resolve_flat (flat rules) seed = inr (resolve rules seed)
resolve_flat error seed = inl error

-- `resolve_for_task`, for a seed that `build_seed` gave.
unfoldable pub resolve_for_task :
    EnvConfig
    → String
    → TaskDefinition
    → Dict String
    → List EnvRule
    → Dict (List EnvRule)
    → Dict Stack
    → Flat ⊎ (Dict String × String)
unfolding flatten resolve collect_rules collect_groups collect_stacks
resolve_for_task config backend_name task seed doc_env doc_env_groups doc_stacks =
    let rules = collect_rules config backend_name task doc_env in
    let groups = collect_groups config backend_name doc_env_groups in
    let stacks = collect_stacks config doc_stacks in
    resolve_flat (flatten groups stacks (suc (length groups)) [] rules) seed
