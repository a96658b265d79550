-- ===== src/Kernel/Handle.antt =====
-- kernel/src/handle.rs: a process's table of capabilities, and the exclusive masters.
pub mod Masks
pub mod Fresh
pub mod Rights
mod Examples
use dunit_os.Prelude.{
  ℕ, zero, suc, ◌+◌, ◌-◌, ◌%◌, ◌^◌, Bool, true, false, not, ◌&&◌, ◌||◌, List, [], ◌∷◌, is_empty,
  map, Option, none, some, bit_and, ◌==◌, ◌!=◌, if◌then◌else◌,
}
use dunit_os.Prelude.Table.{Table, lookup, insert, remove, contains_key, size, values}
use dunit_os.Prelude.Results.{Result, ok, err}

-- `RIGHTS_ALL`: the seven rights, READ to INPUT_MASTER.
abbrev pub rights_all : ℕ
rights_all = 1 + 2 + 4 + 8 + 16 + 32 + 64

pub data HandleError : Type 0 where
  bad_handle access_denied wrong_type display_busy too_large map_failed no_such_target : HandleError

pub data HandleObject : Type 0 where
  memory : List ℕ → HandleObject
  endpoint : (pid : ℕ) → HandleObject
  display : HandleObject
  input : HandleObject
  shared_frames : (id : ℕ) → HandleObject

pub record HandleEntry : Type 0 where
  pub object : HandleObject
  pub rights : ℕ

pub record HandleTable : Type 0 where
  pub entries : Table HandleEntry
  pub next : ℕ

-- `HandleTable::new`.
abbrev pub new_table : HandleTable
new_table = record { entries = []; next = 1 }

abbrev pub is_usable : Table HandleEntry → ℕ → Bool
is_usable entries id = id != 0 && not (contains_key id entries)

-- The loop of `allocate_id`: the id, and the next one to try.
unfoldable pub search : (turns : ℕ) → Table HandleEntry → ℕ → Option (ℕ × ℕ)
search zero entries next = none
search (suc turns) entries next =
    let after = (next + 1) % 2 ^ 32 in
    let rest = search turns entries after in
    if is_usable entries next then some (next, after) else rest

unfoldable pub allocate_id : HandleTable → Option (ℕ × ℕ)
unfolding search
allocate_id t = search (size t.entries + 2) t.entries t.next

-- `HandleTable::insert`; none stands for a loop that does not end.
abbrev pub publish : HandleTable → HandleObject → ℕ → Option (ℕ × ℕ) → Option (HandleTable × ℕ)
publish t object rights none = none
publish t object rights (some (id, next)) = some (
  record {
    entries = insert id (record { object = object; rights = bit_and rights rights_all }) t.entries;
    next = next;
  },
  id,
)

unfoldable pub insert_object : HandleTable → HandleObject → (rights : ℕ) → Option (HandleTable × ℕ)
unfolding allocate_id
insert_object t object rights = publish t object rights (allocate_id t)

abbrev pub or_bad : Option HandleEntry → Result HandleError HandleEntry
or_bad none = err HandleError.bad_handle
or_bad (some e) = ok e

unfoldable pub get : HandleTable → ℕ → Result HandleError HandleEntry
get t handle = or_bad (lookup handle t.entries)

abbrev pub demand : ℕ → Result HandleError HandleEntry → Result HandleError HandleEntry
demand required (err e) = err e
demand required (ok entry) =
    if bit_and entry.rights required != required then err HandleError.access_denied else ok entry

-- `require` and `require_mut`.
unfoldable pub require : HandleTable → ℕ → (required : ℕ) → Result HandleError HandleEntry
unfolding get
require t handle required = demand required (get t handle)

-- `!v` of a `u32`.
abbrev pub complement32 : ℕ → ℕ
complement32 v = 2 ^ 32 - 1 - v

abbrev pub copied : Option (HandleTable × ℕ) → Option (HandleTable × Result HandleError ℕ)
copied none = none
copied (some (t, handle)) = some (t, ok handle)

-- The object of the duplicate is an equal copy: the bytes of a memory object are cloned.
abbrev pub duplicate_of :
    HandleTable → ℕ → Result HandleError HandleEntry → Option (HandleTable × Result HandleError ℕ)
duplicate_of t new_rights (err e) = some (t, err e)
duplicate_of t new_rights (ok current) =
    if bit_and new_rights (complement32 current.rights) != 0
    then some (t, err HandleError.access_denied)
    else copied (insert_object t current.object new_rights)

-- `HandleTable::duplicate`: the table after, and the result.
unfoldable pub duplicate :
    HandleTable → ℕ → (new_rights : ℕ) → Option (HandleTable × Result HandleError ℕ)
unfolding insert_object get
duplicate t handle new_rights = duplicate_of t (bit_and new_rights rights_all) (get t handle)

abbrev pub removed : HandleTable → ℕ → Result HandleError HandleEntry → HandleTable
removed t handle (err e) = t
removed t handle (ok entry) = record t { entries = remove handle t.entries }

-- `HandleTable::remove`, which `take_for_transfer` also does.
unfoldable pub take_for_transfer : HandleTable → ℕ → HandleTable × Result HandleError HandleEntry
unfolding get
take_for_transfer t handle = (removed t handle (get t handle), get t handle)

unfoldable pub drain_objects : HandleTable → HandleTable × List HandleObject
drain_objects t =
    (record t { entries = [] }, map (λ (e : HandleEntry). e.object) (values t.entries))

-- `try_acquire_display` and `try_acquire_input`, on the owner's cell: 0 is free.
unfoldable pub try_acquire : (pid owner : ℕ) → ℕ × Bool
try_acquire pid owner = if owner == 0 then (pid, true) else (owner, owner == pid)

-- `release_display` and `release_input`.
unfoldable pub release_master : (pid owner : ℕ) → ℕ
release_master pid owner = if owner == pid then 0 else owner
