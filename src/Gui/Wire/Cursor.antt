-- ===== src/Gui/Wire/Cursor.antt =====
-- wire.rs: `Cursor`, the bounded reader of a request payload. A method of the cursor is a parser:
-- it returns its result beside the moved cursor.
use dunit_os.Prelude.{
  ℕ, ◌+◌, ◌^◌, List, length, take, drop, leb, ltb, ◌!=◌, if◌then◌else◌, contains,
}
use dunit_os.Prelude.Int.{ℤ, to_i32}
use dunit_os.Prelude.Results.{Result, ok, err}
use dunit_os.Gui.Wire.Bytes.{rd_u16, rd_u32, rd_u64}
use dunit_os.Gui.Wire.Header.{WireError, malformed, bad_value}
use dunit_os.Gui.Wire.Utf8.{is_utf8}

pub record Cursor : Type 0 where
  pub b : List ℕ
  pub pos : ℕ

abbrev pub new : List ℕ → Cursor
new b = record { b = b; pos = 0 }

abbrev pub Parser : Type 0 → Type 0
Parser A = Cursor → Result WireError (A × Cursor)

infixl 5 ◌>>=◌ ◌>>◌
abbrev pub ◌>>=◌ : {A B : Type 0} → Parser A → (A → Parser B) → Parser B
◌>>=◌ p f c = elim (p c) [ ok (a, c') ↦ f a c' | err e ↦ err e ]

abbrev pub ◌>>◌ : {B : Type 0} → Parser (Unit {0}) → Parser B → Parser B
p >> q = p >>= λ _. q

abbrev pub pure : {A : Type 0} → A → Parser A
pure a c = ok (a, c)

abbrev pub fail : {A : Type 0} → WireError → Parser A
fail e c = err e

-- `Cursor::take`: `checked_add` fails on a sum that no `usize` holds.
unfoldable pub take_bytes : ℕ → Parser (List ℕ)
take_bytes n c =
    if leb (2 ^ 64) (c.pos + n)
    then err (malformed "payload overflow")
    else if ltb (length c.b) (c.pos + n)
    then err (malformed "payload truncated")
    else ok (take n (drop c.pos c.b), record c { pos = c.pos + n })

unfoldable pub u16 : Parser ℕ
unfolding rd_u16
u16 = do s ← take_bytes 2; pure (rd_u16 s 0)

unfoldable pub u32 : Parser ℕ
unfolding rd_u32
u32 = do s ← take_bytes 4; pure (rd_u32 s 0)

unfoldable pub u64 : Parser ℕ
unfolding rd_u64
u64 = do s ← take_bytes 8; pure (rd_u64 s 0)

unfoldable pub i32 : Parser ℤ
i32 = do v ← u32; pure (to_i32 v)

-- A reserved field: present on the wire, and zero.
unfoldable pub reserved_u32 : Parser (Unit {0})
reserved_u32 = do v ← u32; if v != 0 then fail (malformed "nonzero reserved") else pure tt

-- `str` is a `u16` length and that many UTF-8 bytes, none of them NUL.
unfoldable pub take_str : Parser (List ℕ)
take_str = do
  len ← u16
  bytes ← take_bytes len
  if contains bytes 0
      then fail (bad_value "NUL in string")
      else if is_utf8 bytes
      then pure bytes
      else fail (bad_value "invalid UTF-8")

unfoldable pub finish : Parser (Unit {0})
finish c = if c.pos != length c.b then err (malformed "trailing payload bytes") else ok (tt, c)
