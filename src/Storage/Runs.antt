-- ===== src/Storage/Runs.antt =====
-- `RunStorageManager.save_run` and `load_run` (src/scripthut/runs/storage.py) on documents, and
-- `derive_source_name` (src/scripthut/runs/models.py).
use scripthut.Common.{
  String, ◌≡◌, refl, false, Option, none, some, List, [], ◌∷◌, map, if◌then◌else◌, ◌==◌, truthy,
  or_else,
}
use scripthut.Common.Text.{split, starts_with}
use scripthut.Model.{EnvRule, RunItem, Run}
use scripthut.Storage.Json.{
  Json, bool, num, str, array, object, no_fields, field, ◌>>=◌, lookup, to_object, to_text, to_num,
  to_bool, to_items, required, default, optional, each, each_field, write_option, write_list,
  write_dict, each-write_list, each-write_list-map, each_field-write_dict, nullable-text,
  nullable-num,
}
use scripthut.Storage.Tasks.{Codec, ReadsBack}
use scripthut.Storage.Items.{item_to_dict, item_from_dict, stored_item, item_from_dict-to_dict}

-- The parts of a workflow name, at the slashes.
abbrev source_in : List String → Option String
source_in [] = none
source_in (first ∷ []) = none
source_in (first ∷ second ∷ []) =
    if first == "_agent"
    then none
    else if first == "_stack"
    then none
    else if starts_with first "_"
    then none
    else some first
source_in (first ∷ second ∷ third ∷ rest) =
    if first == "_agent"
    then some second
    else if first == "_stack"
    then some second
    else if starts_with first "_"
    then none
    else some first

unfoldable pub derive_source_name : String → Option String
derive_source_name workflow_name = source_in (split 47 workflow_name)

module _ (codec : Codec) where
  abbrev pub write_rules : List EnvRule → Json
  write_rules rules = array (write_list codec.dump_rule rules)

  abbrev pub read_rules : Json → Option (List EnvRule)
  read_rules v = to_items v >>= each codec.validate_rule

  -- The document that `save_run` writes.
  unfoldable pub run_to_dict : Run → Json
  run_to_dict run = object (
      field "version" (num 2) (
        field "id" (str run.id) (
          field "workflow_name" (str run.workflow_name) (
            field "backend_name" (str run.backend_name) (
              field "created_at" (str (codec.isoformat run.created_at)) (
                field "max_concurrent" (write_option num run.max_concurrent) (
                  field "log_dir" (str run.log_dir) (
                    field "account" (write_option str run.account) (
                      field "login_shell" (bool run.login_shell) (
                        field "commit_hash" (write_option str run.commit_hash) (
                          field "git_repo" (write_option str run.git_repo) (
                            field "git_branch" (write_option str run.git_branch) (
                              field "source_name" (write_option str run.source_name) (
                                field "doc_env" (write_rules run.doc_env) (
                                  field "doc_env_groups"
                                    (object (write_dict write_rules run.doc_env_groups))
                                    (field "doc_stacks"
                                      (object (write_dict codec.dump_stack run.doc_stacks))
                                      (field "agent_session" (bool run.agent_session) (
                                        field "agent_mode" (write_option str run.agent_mode) (
                                          field "agent_session_name"
                                            (write_option str run.agent_session_name)
                                            (field "items"
                                              (array (write_list (item_to_dict codec) run.items))
                                              no_fields))))))))))))))))))))

  -- What `load_run` makes of a document; `none` where it logs an error.
  unfoldable pub run_from_dict : Json → Option Run
  unfolding ◌>>=◌
  run_from_dict v = do
    d ← to_object v
    items ← default (λ j. to_items j >>= each (item_from_dict codec)) [] (lookup d "items")
    doc_env ← default read_rules [] (lookup d "doc_env")
    doc_env_groups ←
        default (λ j. to_object j >>= each_field read_rules) [] (lookup d "doc_env_groups")
    doc_stacks ←
        default (λ j. to_object j >>= each_field codec.validate_stack) [] (lookup d "doc_stacks")
    id ← required to_text d "id"
    workflow_name ← required to_text d "workflow_name"
    backend_name ← or_else (lookup d "backend_name") (lookup d "cluster_name") >>= to_text
    created_at ← required (λ j. to_text j >>= codec.fromisoformat) d "created_at"
    max_concurrent ← optional to_num (lookup d "max_concurrent")
    log_dir ← default to_text "~/.cache/scripthut/logs" (lookup d "log_dir")
    account ← optional to_text (lookup d "account")
    login_shell ← default to_bool false (lookup d "login_shell")
    commit_hash ← optional to_text (lookup d "commit_hash")
    git_repo ← optional to_text (lookup d "git_repo")
    git_branch ← optional to_text (lookup d "git_branch")
    source_name ← optional to_text (lookup d "source_name")
    agent_session ← default to_bool false (lookup d "agent_session")
    agent_mode ← optional to_text (lookup d "agent_mode")
    agent_session_name ← optional to_text (lookup d "agent_session_name")
    some (record {
      id = id;
      workflow_name = workflow_name;
      backend_name = backend_name;
      created_at = created_at;
      items = items;
      max_concurrent = max_concurrent;
      log_dir = log_dir;
      account = account;
      login_shell = login_shell;
      commit_hash = commit_hash;
      git_repo = git_repo;
      git_branch = git_branch;
      source_name = or_else (truthy source_name) (derive_source_name workflow_name);
      doc_env = doc_env;
      doc_env_groups = doc_env_groups;
      doc_stacks = doc_stacks;
      agent_session = agent_session;
      agent_mode = agent_mode;
      agent_session_name = agent_session_name;
    })

-- What is left of a run: a missing source is derived from the name of the workflow.
unfoldable pub stored_run : Run → Run
stored_run run = record run {
  items = map stored_item run.items;
  source_name = or_else (truthy run.source_name) (derive_source_name run.workflow_name);
}

module _ (codec : Codec) (back : ReadsBack codec) where
  rules-back : (rules : List EnvRule) → read_rules codec (write_rules codec rules) ≡ some rules
  unfolding ◌>>=◌
  rules-back rules = each-write_list codec.validate_rule codec.dump_rule back.rule_back rules

  items-back :
      (items : List RunItem)
      → each (item_from_dict codec) (write_list (item_to_dict codec) items)
        ≡ some (map stored_item items)
  items-back items =
      each-write_list-map (item_from_dict codec) (item_to_dict codec) stored_item
        (item_from_dict-to_dict codec back) items

  pub run_from_dict-to_dict :
      (run : Run) → run_from_dict codec (run_to_dict codec run) ≡ some (stored_run run)
  unfolding run_from_dict run_to_dict ◌>>=◌ stored_run
  run_from_dict-to_dict run =
      rw
        (
          items-back run.items,
          each-write_list codec.validate_rule codec.dump_rule back.rule_back run.doc_env,
          each_field-write_dict (read_rules codec) (write_rules codec) rules-back
              run.doc_env_groups,
          each_field-write_dict codec.validate_stack codec.dump_stack back.stack_back
              run.doc_stacks,
          back.time_back run.created_at,
          nullable-num run.max_concurrent,
          nullable-text run.account,
          nullable-text run.commit_hash,
          nullable-text run.git_repo,
          nullable-text run.git_branch,
          nullable-text run.source_name,
          nullable-text run.agent_mode,
          nullable-text run.agent_session_name,
        )
        refl
