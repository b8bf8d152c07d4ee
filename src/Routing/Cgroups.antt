-- ===== src/Routing/Cgroups.antt =====
-- routing/routing_policy_manager.cpp, createCgroupHierarchy, setupOneClass and the directories that
-- cleanup removes, over std::filesystem and the file streams.
pub mod Examples
pub mod NetCls
pub mod SetUp
pub mod Unseen
pub mod Classids
use wifi_offload_rpi.Prelude.{
  Bool, List, Option, Text, [], codes, false, if◌then◌else◌, is_empty, map, none, not, ok, some,
  true, unexpected, ℕ, ◌&&◌, ◌++◌, ◌-◌, ◌==◌, ◌^◌, ◌∷◌,
}
use wifi_offload_rpi.Types.{PathClassConfig, cgroup_create_failed, cgroup_write_failed}
use wifi_offload_rpi.Routing.Netlink.{Result}
use wifi_offload_rpi.Config.Hex.{
  Parsed, format_hex, invalid_argument, out_of_range, stoul_hex, value,
}
use mathlib.Core.Option

-- The file system. A Boolean is true if the call leaves no error.
pub record Files : Type 1 where
  pub Disk : Type 0
  pub canonical : Text → Disk → Option Text
  pub create_directories : Text → Disk → Bool × Disk
  -- All that an ifstream gives; `none` if it is not good after it is opened.
  pub read_file : Text → Disk → Option Text
  -- An ofstream on a file, truncated. An insertion fills the stream's buffer, which is part of the
  -- state, and its Boolean is false if the stream has failed then. The file is written when the
  -- stream is destroyed; its Boolean is false if this write fails.
  pub open_file : Text → Disk → Option Disk
  pub insert_text : Text → Text → Disk → Bool × Disk
  pub close_file : Text → Disk → Bool × Disk
  pub exists : Text → Disk → Option Bool
  pub remove : Text → Disk → Bool × Disk

abbrev slash : ℕ
slash = b'/'

-- std::filesystem::path::filename: what follows the last slash.
file_name_from : Text → Text → Text
file_name_from name [] = name
file_name_from name (c ∷ cs) = if c == slash then file_name_from cs cs else file_name_from name cs

unfoldable pub file_name : Text → Text
unfolding file_name_from
file_name path = file_name_from path path

-- A text without the slashes at its end.
trimmed : Text → Text
trimmed [] = []
trimmed (c ∷ cs) = let rest = trimmed cs in if c == slash && is_empty rest then [] else c ∷ rest

-- What stands before the last slash, the slash included.
front : Text → Text
front [] = []
front (c ∷ cs) =
    let rest = front cs in if c == slash then c ∷ rest else if is_empty rest then [] else c ∷ rest

-- parent_path: the front without its last slashes; the root is its own parent.
unfoldable pub parent_path : Text → Text
unfolding trimmed front
parent_path path =
    if is_empty (front path)
    then []
    else if is_empty (trimmed (front path))
    then slash ∷ []
    else trimmed (front path)

ends_in_slash : Text → Bool
ends_in_slash [] = true
ends_in_slash (c ∷ []) = c == slash
ends_in_slash (c ∷ x ∷ cs) = ends_in_slash (x ∷ cs)

-- operator/ with a relative path on the right.
unfoldable pub join : Text → Text → Text
unfolding ends_in_slash
join path name = if ends_in_slash path then path ++ name else path ++ slash ∷ name

-- `ifs >> std::hex >> existing`; the variable is 0 if the file cannot be read.
extracted : Parsed → ℕ
extracted (value n) = n
extracted invalid_argument = 0
extracted out_of_range = 2 ^ 32 - 1

unfoldable pub existing : Option Text → ℕ
unfolding extracted
existing none = 0
existing (some text) = extracted (stoul_hex 32 text)

abbrev pub classid_text : ℕ → Text
classid_text n = format_hex n ++ 10 ∷ []

module _ (files : Files) where
  open files use {
    Disk, canonical, create_directories, read_file, open_file, insert_text, close_file, exists,
    remove,
  }

  -- The directory with the links of its parent resolved.
  unfoldable pub cgroup_dir : Text → Disk → Option Text
  cgroup_dir path d =
      Option.map (λ real. join real (file_name path)) (canonical (parent_path path) d)

  abbrev pub classid_file : Text → Text
  classid_file dir = join dir (codes "net_cls.classid")

  -- fail() is asked after the insertion; the stream is destroyed at the end of the block, and no one
  -- is told whether the buffer was written.
  abbrev inserted : Text → Bool × Disk → Result (Unit {0}) × Disk
  inserted file (true, d) = (ok tt, (close_file file d).1)
  inserted file (false, d) = (unexpected cgroup_write_failed, (close_file file d).1)

  write_classid : Text → ℕ → Disk → Result (Unit {0}) × Disk
  write_classid file classid d = elim (open_file file d) [
    | none ↦ (unexpected cgroup_write_failed, d)
    | some d' ↦ inserted file (insert_text file (classid_text classid) d')
  ]

  -- After the directory was made, or not.
  set_classid : PathClassConfig → Text → Bool × Disk → Result (Unit {0}) × Disk
  unfolding write_classid
  set_classid cls dir (false, d) = (unexpected cgroup_create_failed, d)
  set_classid cls dir (true, d) =
      if not (existing (read_file (classid_file dir) d) == cls.classid)
      then write_classid (classid_file dir) cls.classid d
      else (ok tt, d)

  unfoldable pub setup_one_class : PathClassConfig → Disk → Result (Unit {0}) × Disk
  unfolding set_classid
  setup_one_class cls d = elim (cgroup_dir cls.cgroup_path d) [
    | none ↦ (unexpected cgroup_create_failed, d)
    | some dir ↦ set_classid cls dir (create_directories dir d)
  ]

  -- The first error ends the loop.
  unfoldable pub create_cgroup_hierarchy : List PathClassConfig → Disk → Result (Unit {0}) × Disk
  create_cgroup_hierarchy [] d = (ok tt, d)
  create_cgroup_hierarchy (cls ∷ rest) d =
      let (result, d') = setup_one_class cls d in
      elim result [ unexpected e ↦ (unexpected e, d') | ok u ↦ create_cgroup_hierarchy rest d' ]

  -- Errors are logged only.
  remove_cgroup : PathClassConfig → Disk → Disk
  remove_cgroup cls d = elim (cgroup_dir cls.cgroup_path d) [
    | none ↦ d
    | some dir ↦ (elim (exists dir d) [ none ↦ d | some false ↦ d | some true ↦ (remove dir d).1 ])
  ]

  -- The last class first.
  unfoldable pub remove_cgroups : List PathClassConfig → Disk → Disk
  unfolding remove_cgroup
  remove_cgroups [] d = d
  remove_cgroups (cls ∷ rest) d = remove_cgroup cls (remove_cgroups rest d)
