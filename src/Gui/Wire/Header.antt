-- ===== src/Gui/Wire/Header.antt =====
-- wire.rs: `Rect`, `WireError`, the fixed `Header` and its framing validation.
use Prim.Native.String.{String}
use dunit_os.Prelude.{ℕ, List, length, ltb, ◌!=◌, ◌||◌}
use dunit_os.Prelude.Int.{ℤ}
use dunit_os.Prelude.Results.{Result, ok, ◌>>=◌, reject, ◌>>◌}
use dunit_os.Gui.Wire.Codes.{ErrorCode, magic, header_len, min_packet, max_packet}
use dunit_os.Gui.Wire.Bytes.{rd_u16, rd_u32, rd_u64}

-- A rectangle as on the wire: `x:i32, y:i32, w:u32, h:u32`.
pub record Rect : Type 0 where
  pub x : ℤ
  pub y : ℤ
  pub w : ℕ
  pub h : ℕ

pub record WireError : Type 0 where
  pub code : ErrorCode
  pub reason : String

abbrev pub malformed : String → WireError
malformed s = record { code = ErrorCode.malformed; reason = s }

abbrev pub bad_value : String → WireError
bad_value s = record { code = ErrorCode.bad_value; reason = s }

abbrev pub bad_opcode : String → WireError
bad_opcode s = record { code = ErrorCode.bad_opcode; reason = s }

pub record Header : Type 0 where
  pub major : ℕ
  pub minor : ℕ
  pub opcode_raw : ℕ
  pub size : ℕ
  pub object : ℕ
  pub serial : ℕ

-- `Header::decode`.
unfoldable pub decode : List ℕ → Result WireError Header
unfolding rd_u16 rd_u32 rd_u64 ◌>>=◌ ◌>>◌
decode packet = do
  reject (ltb (length packet) header_len) (malformed "short header")
  reject (ltb (length packet) min_packet || ltb max_packet (length packet))
      (malformed "packet length out of range")
  reject (rd_u32 packet 0 != magic) (malformed "bad magic")
  reject (rd_u16 packet 10 != 0) (malformed "nonzero flags")
  let size = rd_u32 packet 12
  reject (size != length packet) (malformed "size mismatch / trailing bytes")
  ok (record {
    major = rd_u16 packet 4;
    minor = rd_u16 packet 6;
    opcode_raw = rd_u16 packet 8;
    size = size;
    object = rd_u64 packet 16;
    serial = rd_u64 packet 24;
  })
