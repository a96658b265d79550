-- ===== src/Kernel/Vfs/Examples.antt =====
-- kernel/src/fs/vfs.rs: a root with one mount point, and a file that two processes share.
use dunit_os.Kernel.Vfs.OpenFlags.{is_valid}
use dunit_os.Prelude.{
  ℕ, ◌≡◌, refl, List, [], ◌∷◌, some, arith, if◌then◌else◌, ◌==◌, ◌+◌, true, false,
}
use dunit_os.Prelude.Table.{lookup}
use dunit_os.Prelude.Results.{ok, ◌>>=◌}
use dunit_os.Gui.Wire.Utf8.{is_utf8}
use dunit_os.Kernel.Vfs.{VirtualFileSystem, OpenFile, on_file, resolve_path, select, trim_start}
use dunit_os.Kernel.Vfs.Path.{normalize_path, str_eq, checked}
use dunit_os.Kernel.Vfs.Components.{walk, render}
use dunit_os.Kernel.Vfs.Normal.{IsNormal, parts_of, normalize_path_lem}
use dunit_os.Kernel.Vfs.Again.{normalize_path_twice, normalize_path_fits}
use dunit_os.Kernel.Vfs.Mounts.{Leads, resolve_path_lem}
use dunit_os.Kernel.Vfs.Descriptors.{Call, run, holders, shared, drops_at, run_shared}

-- `../dev/./tty` from `/home`.
abbrev given : List ℕ
given = b'.' ∷ b'.' ∷ b'/' ∷ b'd' ∷ b'e' ∷ b'v' ∷ b'/' ∷ b'.' ∷ b'/' ∷ b't' ∷ b't' ∷ b'y' ∷ []

abbrev home : List ℕ
home = b'/' ∷ b'h' ∷ b'o' ∷ b'm' ∷ b'e' ∷ []

abbrev dev : List ℕ
dev = b'/' ∷ b'd' ∷ b'e' ∷ b'v' ∷ []

abbrev tty : List ℕ
tty = b't' ∷ b't' ∷ b'y' ∷ []

abbrev dev_tty : List ℕ
dev_tty = b'/' ∷ b'd' ∷ b'e' ∷ b'v' ∷ b'/' ∷ b't' ∷ b't' ∷ b'y' ∷ []

normalized : normalize_path given home ≡ ok dev_tty
unfolding normalize_path str_eq ◌>>=◌ is_utf8
normalized = refl

normalize_path_lem_example : IsNormal dev_tty (walk (parts_of given home) [])
normalize_path_lem_example = normalize_path_lem given home dev_tty normalized

normalize_path_twice_example : normalize_path dev_tty given ≡ ok dev_tty
normalize_path_twice_example = normalize_path_twice given home given dev_tty normalized

normalize_path_fits_example :
    normalize_path given home ≡ checked (render (walk (parts_of given home) []))
normalize_path_fits_example = normalize_path_fits given home (omega arith)

abbrev vfs : VirtualFileSystem
vfs = record {
  root_fs = some 1;
  mounts = record { path = dev; fs = 2 } ∷ [];
  open_files = (3, record { fs = 1; handle = 40; refs = 1 }) ∷ [];
  next_fd = 4;
}

resolved : resolve_path given home vfs ≡ ok (2, tty)
unfolding resolve_path select trim_start normalize_path str_eq ◌>>=◌ is_utf8
resolved = refl

resolve_path_lem_example :
    (path : List ℕ) × (normalize_path given home ≡ ok path) × Leads path vfs 2 tty
resolve_path_lem_example = resolve_path_lem given home vfs 2 tty resolved

abbrev file : OpenFile
file = record { fs = 1; handle = 40; refs = 1 }

abbrev calls : List Call
calls = Call.retain 3 ∷ Call.close 3 ∷ Call.retain 9 ∷ Call.close 3 ∷ Call.close 3 ∷ []

found : lookup 3 vfs.open_files ≡ some file
unfolding lookup
found = refl

run_shared_example :
    (lookup 3 (run calls vfs).0.open_files ≡ shared file (holders 3 calls 1))
    × (drops_at 3 (run calls vfs).1 ≡ (if holders 3 calls 1 == 0 then 1 else 0))
run_shared_example = run_shared 3 file vfs calls found (omega arith)

-- A call on a descriptor asks the file's own file system for its handle.
asks_handle : on_file (λ fs handle. ok (fs + handle)) 3 vfs ≡ ok 41
unfolding on_file lookup
asks_handle = refl

-- READ with CREATE and EXCL is valid; EXCL without CREATE, TRUNC without WRITE, and a seventh flag are not.
exclusive_create : is_valid 0x25 ≡ true
unfolding is_valid
exclusive_create = refl

refused_flags :
    (is_valid 0x21 ≡ false)
    × (is_valid 0x9 ≡ false)
    × (is_valid 0x41 ≡ false)
    × (is_valid 0x4 ≡ false)
unfolding is_valid
refused_flags = (refl, refl, refl, refl)
