-- ===== src/Cascade/Scan/Walk.antt =====
-- The walk: what it returns, and when it raises.
use ever_os.Prelude.{
  if◌then◌else◌, ℕ, String, ◌≡◌, refl, Bool, true, false, ◌&&◌, ◌||◌, Option, none, some, List, [],
  ◌∷◌, ◌++◌, arith,
}
use ever_os.Cascade.Queue.{Queue, kind_allowed}
use ever_os.Cascade.Reconcile.{ScanInput}
use ever_os.Cascade.Scan.{
  StatReply, stat_ok, not_found, os_error, Globbed, Disk, collect_scan_inputs, scan_once, stat_all,
}

abbrev is_os_error : StatReply → Bool
is_os_error os_error = true
is_os_error _ = false

abbrev any_error : List Globbed → Bool
any_error [] = false
any_error (g ∷ rest) = is_os_error g.stat || any_error rest

-- Some path of an allowed kind answers with an error other than ENOENT.
abbrev pub walk_fails : Disk → Option (List String) → Bool
walk_fails [] kinds = false
walk_fails ((name, globbed) ∷ specs) kinds =
    (kind_allowed kinds name && any_error globbed) || walk_fails specs kinds

-- The paths of one kind that have a modification time and lie below the root.
abbrev readable : String → List Globbed → List ScanInput
readable kind [] = []
readable kind (g ∷ rest) = elim g.stat [
  | stat_ok mtime ↦ elim g.relative [
    | none ↦ readable kind rest
    | some path ↦ record { md_path = path; mtime = mtime; kind = kind } ∷ readable kind rest
  ]
  | not_found ↦ readable kind rest
  | os_error ↦ readable kind rest
]

abbrev pub all_readable : Disk → Option (List String) → List ScanInput
all_readable [] kinds = []
all_readable ((name, globbed) ∷ specs) kinds =
    (if kind_allowed kinds name then readable name globbed else []) ++ all_readable specs kinds

stat_all_lem :
    (kind : String) (globbed : List Globbed)
    → stat_all kind globbed ≡ (if any_error globbed then none else some (readable kind globbed))
unfolding stat_all
stat_all_lem kind [] = refl
stat_all_lem kind (g ∷ rest) = ground (arith, stat_all_lem kind rest)

-- The walk raises exactly when some path of an allowed kind answers with an error other than
-- ENOENT. If it returns, it returns every readable path of the allowed kinds, and only the paths
-- that are gone or lie outside the root are left out.
collect_scan_inputs_lem :
    (disk : Disk) (kinds : Option (List String))
    → collect_scan_inputs disk kinds
      ≡ (if walk_fails disk kinds then none else some (all_readable disk kinds))
unfolding collect_scan_inputs
collect_scan_inputs_lem [] kinds = refl
collect_scan_inputs_lem ((name, globbed) ∷ specs) kinds =
    ground (arith, stat_all_lem name globbed, collect_scan_inputs_lem specs kinds)

-- A sweep whose walk raises leaves the table as it was and decides nothing: no file is taken for
-- deleted because the disk could not be read.
scan_once-failed :
    (clock : ℕ → ℕ) (disk : Disk) (kinds : Option (List String)) (queue : Queue)
    → walk_fails disk kinds ≡ true
    → scan_once clock disk kinds queue ≡ (queue, none)
unfolding scan_once
scan_once-failed clock disk kinds queue h = ground (arith, collect_scan_inputs_lem disk kinds)
