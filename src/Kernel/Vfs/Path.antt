-- ===== src/Kernel/Vfs/Path.antt =====
-- kernel/src/fs/vfs.rs: the normalisation of paths, in a buffer of 256 bytes. The buffer is the list of its
-- first `len` bytes; the bytes behind them are never read.
use dunit_os.Prelude.{
  ℕ, zero, suc, ◌+◌, ◌-◌, Bool, true, false, ◌&&◌, ◌||◌, List, [], ◌∷◌, ◌++◌, length, take, get_or,
  is_empty, ltb, leb, ◌==◌, if◌then◌else◌,
}
use dunit_os.Prelude.Results.{Result, ok, err, ◌>>=◌}
use dunit_os.Gui.Wire.Utf8.{is_utf8}

pub data VfsError : Type 0 where
  not_found permission_denied invalid_descriptor already_exists not_a_directory is_a_directory :
      VfsError
  invalid_path unsupported io_error directory_not_empty file_too_big : VfsError

abbrev pub slash : ℕ
slash = b'/'

abbrev pub buffer_size : ℕ
buffer_size = 256

-- `==` on strings.
unfoldable pub str_eq : List ℕ → List ℕ → Bool
str_eq [] [] = true
str_eq [] (b ∷ bs) = false
str_eq (a ∷ as') [] = false
str_eq (a ∷ as') (b ∷ bs) = a == b && str_eq as' bs

abbrev pub starts_with_slash : List ℕ → Bool
starts_with_slash [] = false
starts_with_slash (b ∷ bs) = b == slash

-- `path.split('/')`.
abbrev pub onto_first : ℕ → List (List ℕ) → List (List ℕ)
onto_first b [] = (b ∷ []) ∷ []
onto_first b (part ∷ parts) = (b ∷ part) ∷ parts

unfoldable pub split : List ℕ → List (List ℕ)
split [] = [] ∷ []
split (b ∷ bs) = if b == slash then [] ∷ split bs else onto_first b (split bs)

unfoldable pub push_path_component : List ℕ → List ℕ → Result VfsError (List ℕ)
push_path_component part out =
    let needs_slash : Bool = ltb 1 (length out) in
    let required : ℕ = length part + (if needs_slash then 1 else 0) in
    if ltb buffer_size (length out + required)
    then err VfsError.invalid_path
    else ok (if needs_slash then out ++ (slash ∷ part) else out ++ part)

-- The loop of `pop_path_component`, from `idx` down.
unfoldable pub back : (idx : ℕ) → List ℕ → ℕ
back zero out = 0
back (suc idx) out =
    let rest : ℕ = back idx out in if get_or out (suc idx) 0 == slash then suc idx else rest

unfoldable pub pop_path_component : List ℕ → List ℕ
unfolding back
pop_path_component out =
    let idx : ℕ = back (length out - 1) out in
    if leb (length out) 1 then take 1 out else take (if idx == 0 then 1 else idx) out

abbrev pub is_skipped : List ℕ → Bool
is_skipped part = is_empty part || str_eq part (b'.' ∷ [])

abbrev pub is_parent : List ℕ → Bool
is_parent part = str_eq part (b'.' ∷ b'.' ∷ [])

-- One part of a path.
unfoldable pub append_part : List ℕ → List ℕ → Result VfsError (List ℕ)
unfolding push_path_component pop_path_component
append_part part out =
    if is_skipped part
    then ok out
    else if is_parent part
    then ok (pop_path_component out)
    else push_path_component part out

unfoldable pub append_parts : List (List ℕ) → List ℕ → Result VfsError (List ℕ)
unfolding append_part
append_parts [] out = ok out
append_parts (part ∷ parts) out = append_part part out >>= λ next. append_parts parts next

unfoldable pub append_path_components : List ℕ → List ℕ → Result VfsError (List ℕ)
unfolding append_parts split
append_path_components path out = append_parts (split path) out

abbrev pub checked : List ℕ → Result VfsError (List ℕ)
checked out = if is_utf8 out then ok out else err VfsError.invalid_path

-- `normalize_path_into`, and so `normalize_path`, which copies its result.
unfoldable pub normalize_path : (path cwd : List ℕ) → Result VfsError (List ℕ)
unfolding append_path_components
normalize_path path cwd =
    (if is_empty path
      then append_path_components cwd (slash ∷ [])
      else if starts_with_slash path
      then append_path_components path (slash ∷ [])
      else append_path_components cwd (slash ∷ []) >>= λ out. append_path_components path out)
    >>= λ out. checked out
