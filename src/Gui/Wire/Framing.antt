-- ===== src/Gui/Wire/Framing.antt =====
-- wire.rs: the packets that `Writer` finishes, before `Header::decode`.
use dunit_os.Prelude.{ℕ, ◌+◌, ◌^◌, ◌≤◌, ◌<◌, ◌≡◌, ap, List, ◌++◌, length, arith}
use dunit_os.Prelude.Results.{ok}
use dunit_os.Gui.Wire.Codes.{Opcode, raw, magic}
use dunit_os.Gui.Wire.Bytes.{le_bytes, from_le, from_le-le_bytes, rd_u16, rd_u32, rd_u64}
use dunit_os.Gui.Wire.Header.{Header, decode}
use dunit_os.Gui.Wire.Writer.{Writer, header, finish}

-- A packet as the protocol lays it out: the fixed header, then the payload.
abbrev pub frame : Opcode → ℕ → ℕ → List ℕ → List ℕ
frame op object serial xs =
    le_bytes 4 magic
    ++ (le_bytes 2 1
        ++ (le_bytes 2 0
            ++ (le_bytes 2 (raw op)
                ++ (le_bytes 2 0
                    ++ (le_bytes 4 (length xs + 32)
                        ++ (le_bytes 8 object ++ (le_bytes 8 serial ++ xs)))))))

abbrev pub header_of : Opcode → ℕ → ℕ → List ℕ → Header
header_of op object serial xs = record {
  major = 1;
  minor = 0;
  opcode_raw = raw op;
  size = length xs + 32;
  object = object;
  serial = serial;
}

pub raw-lt : (op : Opcode) → raw op < 2 ^ 16
unfolding raw
raw-lt Opcode.hello = omega arith
raw-lt _ = omega arith

pub finish-frame :
    (op : Opcode) (object serial : ℕ) (xs : List ℕ) (w : Writer)
    → w.buf ≡ (header op object serial).buf ++ xs
    → finish w ≡ frame op object serial xs
unfolding finish header
finish-frame op object serial xs w e = rw (e) (ap (λ n. frame_with n) (omega arith))
  where
    frame_with : ℕ → List ℕ
    frame_with n =
        le_bytes 4 magic
        ++ (le_bytes 2 1
            ++ (le_bytes 2 0
                ++ (le_bytes 2 (raw op)
                    ++ (le_bytes 2 0
                        ++ (le_bytes 4 n ++ (le_bytes 8 object ++ (le_bytes 8 serial ++ xs)))))))

pub decode-frame :
    (op : Opcode) (object serial : ℕ) (xs : List ℕ)
    → object < 2 ^ 64
    → serial < 2 ^ 64
    → length xs ≤ 224
    → decode (frame op object serial xs) ≡ ok (header_of op object serial xs)
unfolding decode rd_u16 rd_u32 rd_u64
decode-frame op object serial xs ho hs hx =
    let e1 : from_le (le_bytes 2 (raw op)) ≡ raw op = from_le-le_bytes 2 (raw op) (raw-lt op) in
    let e2 : from_le (le_bytes 4 (length xs + 32)) ≡ length xs + 32 =
      from_le-le_bytes 4 (length xs + 32) (omega arith) in
    let e3 : from_le (le_bytes 8 object) ≡ object = from_le-le_bytes 8 object ho in
    let e4 : from_le (le_bytes 8 serial) ≡ serial = from_le-le_bytes 8 serial hs in
    ground (arith, e1, e2, e3, e4)
