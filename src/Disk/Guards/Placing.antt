-- ===== src/Disk/Guards/Placing.antt =====
-- The paths that `_safety_reason` lets through (src/scripthut/disk/cleanup.py).
use scripthut.Common.{
  String, ◌≡◌, refl, inl, inr, true, false, Option, none, some, length, eqb, arith, Bool-cases,
  truthy,
}
use scripthut.Common.Text.{split}
use scripthut.Disk.Entries.{DiskEntry, ScanSpec}
use scripthut.Disk.Guards.{
  is_clean, is_deep, roots_of, find_root, is_home, name_fits, safety_reason, below_reason,
}

-- The path is below a root, at the depth of its kind, named as its kind is, and not the home
-- directory.
abbrev pub Placed : ScanSpec → Option String → DiskEntry → Type 0
Placed spec home e =
    (root : String) × (below : String) × (find_root (roots_of spec e.kind).0 home e.path
      ≡ some (root, below))
    × (length (split b'/' below) ≡ (roots_of spec e.kind).1)
    × (name_fits e.kind (split b'/' below) ≡ true)
    × (is_home (truthy home) e.path ≡ false)

below_reason-Placed :
    (spec : ScanSpec) (home : Option String) (e : DiskEntry) (found : Option (String × String))
    → find_root (roots_of spec e.kind).0 home e.path ≡ found
    → below_reason e (roots_of spec e.kind).1 home found ≡ none
    → Placed spec home e
below_reason-Placed spec home e none f h = cc h
below_reason-Placed spec home e (some (root, below)) f h =
    elim (Bool-cases (is_home (truthy home) e.path)) [
      | inl at_home ↦ cc (rw at_home at h)
      | inr away ↦ elim (Bool-cases (eqb (length (split b'/' below)) (roots_of spec e.kind).1)) [
        | inr wrong ↦ cc (rw (away, wrong) at h)
        | inl right ↦ elim (Bool-cases (name_fits e.kind (split b'/' below))) [
          | inr odd ↦ cc (rw (away, right, odd) at h)
          | inl fits ↦ (root, below, f, ground (arith, right), fits, away)
        ]
      ]
    ]

pub record IsSafe (spec : ScanSpec) (home : Option String) (e : DiskEntry) : Type 0 where
  pub is_safe_clean : is_clean e.path ≡ true
  pub is_safe_deep : is_deep e.path ≡ true
  pub is_safe_placed : Placed spec home e

pub safety_reason-IsSafe :
    (spec : ScanSpec) (home : Option String) (e : DiskEntry)
    → safety_reason e spec home ≡ none
    → IsSafe spec home e
unfolding safety_reason
safety_reason-IsSafe spec home e h = elim (Bool-cases (is_clean e.path)) [
  | inr dirty ↦ cc (rw (dirty, safety_reason) at h)
  | inl clean ↦ elim (Bool-cases (is_deep e.path)) [
    | inr shallow ↦ cc (rw (clean, shallow, safety_reason) at h)
    | inl deep ↦ record {
      is_safe_clean = clean;
      is_safe_deep = deep;
      is_safe_placed =
          below_reason-Placed spec home e _ refl (rw (clean, deep, safety_reason) at h);
    }
  ]
]
