-- ===== src/Kernel/Vfs/OpenFlags.antt =====
-- kernel/src/fs/vfs.rs: the flags that a file is opened with.
use dunit_os.Prelude.{ℕ, ◌-◌, ◌^◌, bit_and, bit_or, Bool, not, ◌&&◌, ◌||◌, ◌==◌, ◌!=◌}

abbrev pub read_flag : ℕ
read_flag = 1

abbrev pub write_flag : ℕ
write_flag = 2

abbrev pub create_flag : ℕ
create_flag = 4

abbrev pub trunc_flag : ℕ
trunc_flag = 8

abbrev pub append_flag : ℕ
append_flag = 16

abbrev pub excl_flag : ℕ
excl_flag = 32

abbrev pub valid_bits : ℕ
valid_bits =
    bit_or
      (bit_or (bit_or (bit_or (bit_or read_flag write_flag) create_flag) trunc_flag) append_flag)
      excl_flag

abbrev pub contains_flag : (bits flag : ℕ) → Bool
contains_flag bits flag = bit_and bits flag == flag

-- `is_valid`: no unknown flag, an access mode, and flags that go together.
unfoldable pub is_valid : ℕ → Bool
is_valid bits =
    let can_write : Bool = contains_flag bits write_flag in
    let has_unknown : Bool = bit_and bits (2 ^ 32 - 1 - valid_bits) != 0 in
    let has_access_mode : Bool = contains_flag bits read_flag || can_write in
    let write_only_modifiers_ok : Bool =
      (not (contains_flag bits trunc_flag) && not (contains_flag bits append_flag)) || can_write in
    let excl_needs_create : Bool =
      not (contains_flag bits excl_flag) || contains_flag bits create_flag in
    not has_unknown && (has_access_mode && (write_only_modifiers_ok && excl_needs_create))
