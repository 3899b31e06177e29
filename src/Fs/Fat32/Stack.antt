-- ===== src/Fs/Fat32/Stack.antt =====
-- kernel/src/fs/fat32.cpp: the stack of directories, from the top down, and the current directory.
use pocky.Common.{
  ℕ, ◌-◌, ◌<◌, ◌≡◌, refl, Bool, true, false, Option, none, some, List, [], ◌∷◌, length, take,
  if◌then◌else◌, leb, arith,
}

abbrev pub max_path : ℕ
max_path = 256

abbrev pub max_dir_stack : ℕ
max_dir_stack = 32

abbrev pub root_cluster : ℕ
root_cluster = 2

pub record DirStackEntry : Type 0 where
  pub name : List ℕ
  pub path : List ℕ
  pub cluster : ℕ

pub record Directories : Type 0 where
  pub dir_stack : List DirStackEntry
  pub current_path : List ℕ
  pub current_dir_name : List ℕ
  pub current_directory_cluster : ℕ

-- `strncpy(to, from, MAX_PATH - 1)`, of a string
abbrev pub cut : List ℕ → List ℕ
cut = take (max_path - 1)

abbrev pub root_entry : DirStackEntry
root_entry = record { name = b'/' ∷ []; path = b'/' ∷ []; cluster = root_cluster }

-- The constructor.
abbrev pub start : Directories
start = record {
  dir_stack = root_entry ∷ [];
  current_path = b'/' ∷ [];
  current_dir_name = b'/' ∷ [];
  current_directory_cluster = 2;
}

unfoldable pub push_directory : Directories → List ℕ → List ℕ → ℕ → Directories × Bool
push_directory s name path cluster =
    let entry : DirStackEntry = record { name = cut name; path = cut path; cluster = cluster } in
    if leb max_dir_stack (length s.dir_stack)
    then (s, false)
    else (record s { dir_stack = entry ∷ s.dir_stack }, true)

abbrev go_to : Directories → DirStackEntry → List DirStackEntry → Directories
go_to s e rest = record s {
  dir_stack = e ∷ rest;
  current_path = cut e.path;
  current_dir_name = cut e.name;
  current_directory_cluster = e.cluster;
}

unfoldable pub pop_directory : Directories → Directories × Bool
pop_directory s = elim s.dir_stack [
  | [] ↦ (s, false)
  | e ∷ below ↦ elim below [ [] ↦ (s, false) | f ∷ rest ↦ (go_to s f rest, true) ]
]

-- `none` is the null pointer.
abbrev or_root : Option (List ℕ) → List ℕ
or_root none = b'/' ∷ []
or_root (some path) = cut path

unfoldable pub set_current_path : Directories → Option (List ℕ) → Directories
set_current_path s path = record s { current_path = or_root path }

unfoldable pub set_current_dir_name : Directories → Option (List ℕ) → Directories
set_current_dir_name s name = record s { current_dir_name = or_root name }

unfoldable pub set_current_directory_cluster : Directories → ℕ → Directories
set_current_directory_cluster s cluster = record s { current_directory_cluster = cluster }

-- On a stack that has a directory on top and is not full, entering a directory and leaving it gives the
-- stack of before, and makes its top the current directory.
pub pop-push_directory :
    (s : Directories) (e : DirStackEntry) (rest : List DirStackEntry) (name path : List ℕ)
    (cluster : ℕ)
    → s.dir_stack ≡ e ∷ rest
    → length s.dir_stack < max_dir_stack
    → pop_directory (push_directory s name path cluster).0 ≡ (go_to s e rest, true)
unfolding push_directory pop_directory
pop-push_directory s e rest name path cluster h room =
    let open_place : leb max_dir_stack (length s.dir_stack) ≡ false = ground arith in
    rw (open_place, h) refl
