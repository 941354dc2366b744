-- ===== src/Disk/Paths.antt =====
-- Remote paths in src/scripthut/disk/classify.py, and the patterns of disk/scan.py.
use scripthut.Common.{
  ℕ, String, ◌<>◌, Bool, false, Option, none, some, List, [], ◌∷◌, if◌then◌else◌, ◌==◌, eqb, truthy,
}
use scripthut.Common.Text.{drop_prefix, split, rstrip, strip, matches_hex}

abbrev pub is_slash : ℕ → Bool
is_slash n = eqb n b'/'

-- `home.rstrip("/")`
unfoldable pub trim_slashes : String → String
unfolding rstrip
trim_slashes = rstrip is_slash

-- A leading `~`, read against the home directory.
abbrev pub expand_tilde : String → String → String
expand_tilde h p =
    if p == "~"
    then h
    else (elim (drop_prefix "~/" p) [ none ↦ p | some rest ↦ h <> ("/" <> rest) ])

abbrev pub or_root : String → String
or_root p = if p == "" then "/" else p

-- `normalize_remote_path`
unfoldable pub normalize_remote_path : String → Option String → String
unfolding strip trim_slashes drop_prefix
normalize_remote_path path home =
    let p = strip path in
    or_root
      (trim_slashes (elim (truthy home) [ none ↦ p | some h ↦ expand_tilde (trim_slashes h) p ]))

abbrev first_part : List String → String
first_part [] = ""
first_part (a ∷ parts) = a

-- `_first_component_under`
unfoldable pub first_component_under : String → String → Option String
unfolding drop_prefix split
first_component_under path parent = elim (drop_prefix (parent <> "/") path) [
  | none ↦ none
  | some below ↦ some (first_part (split b'/' below))
]

-- `CLONE_HASH_RE` and `AGENT_DIR_RE`
unfoldable pub is_clone_hash : String → Bool
unfolding matches_hex
is_clone_hash name = matches_hex 12 name

unfoldable pub is_agent_dir : String → Bool
unfolding matches_hex drop_prefix
is_agent_dir name = elim (drop_prefix "agent-" name) [ none ↦ false | some uid ↦ matches_hex 8 uid ]
