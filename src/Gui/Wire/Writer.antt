-- ===== src/Gui/Wire/Writer.antt =====
-- wire.rs: `Writer`, the little-endian packet writer. A method takes the writer last and returns
-- it, so that `w |> m₁ |> m₂` chains them as the source does.
use dunit_os.Prelude.{ℕ, List, [], ◌++◌, length, take, drop}
use dunit_os.Prelude.Int.{ℤ, of_i32}
use dunit_os.Gui.Wire.Codes.{Opcode, raw, magic, version_major, version_minor}
use dunit_os.Gui.Wire.Bytes.{le_bytes}

pub record Writer : Type 0 where
  pub buf : List ℕ

infixl 2 ◌|>◌
abbrev pub ◌|>◌ : {A B : Type 0} → A → (A → B) → B
a |> f = f a

abbrev pub extend_from_slice : List ℕ → Writer → Writer
extend_from_slice bytes w = record { buf = w.buf ++ bytes }

abbrev pub put_u16 : ℕ → Writer → Writer
put_u16 v = extend_from_slice (le_bytes 2 v)

abbrev pub put_u32 : ℕ → Writer → Writer
put_u32 v = extend_from_slice (le_bytes 4 v)

abbrev pub put_u64 : ℕ → Writer → Writer
put_u64 v = extend_from_slice (le_bytes 8 v)

abbrev pub put_i32 : ℤ → Writer → Writer
put_i32 x = put_u32 (of_i32 x)

abbrev pub put_reserved_u32 : Writer → Writer
put_reserved_u32 = put_u32 0

abbrev pub put_str : List ℕ → Writer → Writer
put_str s w = w |> put_u16 (length s) |> extend_from_slice s

-- `Writer::header`: flags are zero, and `size` is patched by `finish`.
unfoldable pub header : Opcode → ℕ → ℕ → Writer
header opcode object serial =
    record { buf = [] }
    |> put_u32 magic
    |> put_u16 version_major
    |> put_u16 version_minor
    |> put_u16 (raw opcode)
    |> put_u16 0
    |> put_u32 0
    |> put_u64 object
    |> put_u64 serial

-- `Writer::finish` overwrites bytes 12 to 15 by the length, as a `u32`.
unfoldable pub finish : Writer → List ℕ
finish w = take 12 w.buf ++ (le_bytes 4 (length w.buf) ++ drop 16 w.buf)
