-- ===== src/Kernel/Vfs.antt =====
-- kernel/src/fs/vfs.rs: mount points, and the descriptors of open files. A file system is a number, the pointer to it;
-- what a file system does is a parameter of the calls that ask it.
pub mod Path
pub mod OpenFlags
pub mod Components
pub mod Appended
pub mod Normal
pub mod Again
pub mod Mounts
pub mod Descriptors
mod Examples
use dunit_os.Prelude.{
  ℕ, zero, suc, ◌+◌, ◌-◌, ◌%◌, ◌^◌, min, Bool, true, false, not, ◌&&◌, ◌||◌, List, [], ◌∷◌, ◌++◌,
  length, drop, any, Option, none, some, ltb, leb, ◌==◌, ◌!=◌, if◌then◌else◌,
}
use dunit_os.Prelude.Table.{Table, lookup, insert, remove, size}
use dunit_os.Prelude.Results.{Result, ok, err, ok_or, ◌>>=◌}
use dunit_os.Kernel.Vfs.Path.{VfsError, slash, str_eq, starts_with_slash, normalize_path}

pub record MountPoint : Type 0 where
  pub path : List ℕ
  pub fs : ℕ

pub record OpenFile : Type 0 where
  pub fs : ℕ
  pub handle : ℕ
  pub refs : ℕ

pub record VirtualFileSystem : Type 0 where
  pub root_fs : Option ℕ
  pub mounts : List MountPoint
  pub open_files : Table OpenFile
  pub next_fd : ℕ

-- `VirtualFileSystem::new`.
abbrev pub new_vfs : VirtualFileSystem
new_vfs = record { root_fs = none; mounts = []; open_files = []; next_fd = 3 }

abbrev pub ends_with_slash : List ℕ → Bool
ends_with_slash [] = false
ends_with_slash (b ∷ []) = b == slash
ends_with_slash (b ∷ c ∷ cs) = ends_with_slash (c ∷ cs)

unfoldable pub mount :
    (path : List ℕ) → (fs : ℕ) → VirtualFileSystem → VirtualFileSystem × Result VfsError (Unit {0})
unfolding str_eq
mount path fs vfs =
    if str_eq path (slash ∷ [])
    then (record vfs { root_fs = some fs }, ok tt)
    else if not (starts_with_slash path) || (ends_with_slash path || ltb 255 (length path))
    then (vfs, err VfsError.invalid_path)
    else if any (λ m. str_eq m.path path) vfs.mounts
    then (vfs, err VfsError.already_exists)
    else (record vfs { mounts = vfs.mounts ++ (record { path = path; fs = fs } ∷ []) }, ok tt)

unfoldable pub starts_with : List ℕ → List ℕ → Bool
starts_with bytes [] = true
starts_with [] (p ∷ ps) = false
starts_with (b ∷ bs) (p ∷ ps) = b == p && starts_with bs ps

-- A mount point that a normalised path lies at or below.
abbrev pub is_exact : List ℕ → MountPoint → Bool
is_exact normalized m = str_eq normalized m.path

abbrev pub is_child : List ℕ → MountPoint → Bool
is_child normalized m =
    starts_with normalized m.path && starts_with_slash (drop (length m.path) normalized)

unfoldable pub is_at : List ℕ → MountPoint → Bool
unfolding starts_with str_eq
is_at normalized m = is_exact normalized m || is_child normalized m

abbrev pub is_longer : MountPoint → Option MountPoint → Bool
is_longer m none = true
is_longer m (some current) = ltb (length current.path) (length m.path)

-- The loop over the mount points.
unfoldable pub select : List ℕ → List MountPoint → Option MountPoint → Option MountPoint
unfolding is_at
select normalized [] selected = selected
select normalized (m ∷ mounts) selected =
    select normalized mounts
      (if is_at normalized m && is_longer m selected then some m else selected)

-- `trim_start_matches('/')`.
unfoldable pub trim_start : List ℕ → List ℕ
trim_start [] = []
trim_start (b ∷ bs) = if b == slash then trim_start bs else b ∷ bs

abbrev pub relative_to : List ℕ → Option ℕ → Option MountPoint → Result VfsError (ℕ × List ℕ)
relative_to normalized root none =
    ok_or root VfsError.not_found >>= λ fs. ok (fs, trim_start normalized)
relative_to normalized root (some m) = ok (m.fs, trim_start (drop (length m.path) normalized))

unfoldable pub resolve_path : (path cwd : List ℕ) → VirtualFileSystem → Result VfsError (ℕ × List ℕ)
unfolding select trim_start ◌>>=◌
resolve_path path cwd vfs = normalize_path path cwd >>= λ normalized.
    relative_to normalized vfs.root_fs (select normalized vfs.mounts none)

-- `open_at`, with what the file system's `open` answers for a path; the count of descriptors is a `u32`.
abbrev pub opened :
    ℕ → VirtualFileSystem → Result VfsError ℕ → VirtualFileSystem × Result VfsError ℕ
opened fs vfs (err e) = (vfs, err e)
opened fs vfs (ok handle) = (
  record vfs {
    open_files = insert vfs.next_fd (record { fs = fs; handle = handle; refs = 1 }) vfs.open_files;
    next_fd = (vfs.next_fd + 1) % 2 ^ 32;
  },
  ok vfs.next_fd,
)

abbrev pub open_resolved :
    (ℕ → List ℕ → Result VfsError ℕ)
    → VirtualFileSystem
    → Result VfsError (ℕ × List ℕ)
    → VirtualFileSystem × Result VfsError ℕ
open_resolved fs_open vfs (err e) = (vfs, err e)
open_resolved fs_open vfs (ok (fs, relative)) = opened fs vfs (fs_open fs relative)

unfoldable pub open_at :
    (fs_open : ℕ → List ℕ → Result VfsError ℕ)
    → (cwd path : List ℕ) → VirtualFileSystem
    → VirtualFileSystem × Result VfsError ℕ
unfolding resolve_path
open_at fs_open cwd path vfs = open_resolved fs_open vfs (resolve_path path cwd vfs)

abbrev pub retain_found :
    ℕ → VirtualFileSystem → Option OpenFile → VirtualFileSystem × Result VfsError (Unit {0})
retain_found fd vfs none = (vfs, err VfsError.invalid_descriptor)
retain_found fd vfs (some f) = (
  record vfs {
    open_files = insert fd (record f { refs = min (f.refs + 1) (2 ^ 32 - 1) }) vfs.open_files;
  },
  ok tt,
)

unfoldable pub retain : ℕ → VirtualFileSystem → VirtualFileSystem × Result VfsError (Unit {0})
retain fd vfs = retain_found fd vfs (lookup fd vfs.open_files)

-- The state after, the result, and the files that are dropped, which closes their handles.
abbrev pub close_found :
    ℕ
    → VirtualFileSystem
    → Option OpenFile
    → VirtualFileSystem × Result VfsError (Unit {0}) × List OpenFile
close_found fd vfs none = (vfs, err VfsError.invalid_descriptor, [])
close_found fd vfs (some f) =
    if ltb 1 f.refs
    then (
      record vfs { open_files = insert fd (record f { refs = f.refs - 1 }) vfs.open_files },
      ok tt,
      [],
    )
    else (record vfs { open_files = remove fd vfs.open_files }, ok tt, f ∷ [])

unfoldable pub close :
    ℕ → VirtualFileSystem → VirtualFileSystem × Result VfsError (Unit {0}) × List OpenFile
close fd vfs = close_found fd vfs (lookup fd vfs.open_files)

-- `rename_at`, with the file system's `rename`.
unfoldable pub rename_at :
    (fs_rename : ℕ → (old new : List ℕ) → Result VfsError (Unit {0}))
    → (cwd old new : List ℕ) → VirtualFileSystem
    → Result VfsError (Unit {0})
unfolding resolve_path
rename_at fs_rename cwd old new vfs = do
  a ← resolve_path old cwd vfs
  b ← resolve_path new cwd vfs
  if a.0 != b.0 then err VfsError.unsupported else fs_rename a.0 a.1 b.1

-- The calls on a descriptor (`read`, `write`, `seek`, `fstat`, `fsync`, `ftruncate`), with what the file system answers
-- for the file's handle.
unfoldable pub on_file {ℓ} :
    {A : Type ℓ}
    → (fs_call : (fs handle : ℕ) → Result VfsError A) → ℕ
    → VirtualFileSystem
    → Result VfsError A
unfolding ◌>>=◌
on_file fs_call fd vfs =
    ok_or (lookup fd vfs.open_files) VfsError.invalid_descriptor >>= λ f. fs_call f.fs f.handle

-- The calls on a path (`readdir_at`, `readdir_into_at`, `create_at`, `mkdir_at`, `remove_at`, `remove_dir_at`,
-- `truncate_at`, `stat_at`), with what the file system answers for the path inside it.
unfoldable pub at_path {ℓ} :
    {A : Type ℓ}
    → (fs_call : ℕ → List ℕ → Result VfsError A) → (cwd path : List ℕ) → VirtualFileSystem
    → Result VfsError A
unfolding resolve_path ◌>>=◌
at_path fs_call cwd path vfs = resolve_path path cwd vfs >>= λ r. fs_call r.0 r.1

abbrev pub open_file_count : VirtualFileSystem → ℕ
open_file_count vfs = size vfs.open_files
