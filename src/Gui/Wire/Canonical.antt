-- ===== src/Gui/Wire/Canonical.antt =====
-- wire.rs: the bytes that a successful `Request::decode` has read.
use dunit_os.Prelude.{
  ℕ, ◌≡◌, refl, ◌∙◌, ap, subst, Bool, true, false, not, List, [], ◌++◌, length, drop, arith,
  append-nil, drop_all, ◌!=◌, if◌then◌else◌,
}
use dunit_os.Prelude.Results.{Result, ok, err}
use dunit_os.Gui.Wire.Bytes.{AreBytes}
use dunit_os.Gui.Wire.Codes.{Opcode, is_request}
use dunit_os.Gui.Wire.Header.{WireError, malformed, bad_opcode}
use dunit_os.Gui.Wire.Cursor.{Cursor, Parser, ◌>>=◌, pure, finish}
use dunit_os.Gui.Wire.Request.{Request, read_payload, decode, opcode}
use dunit_os.Gui.Wire.RoundTrip.{payload}
use dunit_os.Gui.Wire.Reads.{
  Reads, bind_inv, Reads->>=, Reads-pure, Reads-fail, Reads-u16, Reads-u32, Reads-u64,
  Reads-reserved_u32, Reads-take_str, Reads-damage,
}

-- The bytes of a request, and its opcode.
abbrev Spells : Opcode → Request → List ℕ → Type 0
Spells op req xs = (xs ≡ payload req) × (opcode req ≡ op)

Reads-payload : (op : Opcode) → Reads (read_payload op) (Spells op)
unfolding read_payload opcode
Reads-payload Opcode.hello = Reads->>= _ Reads-u16 (λ a xs e. Reads->>= _ Reads-u16 (λ b ys f.
    Reads->>= _ Reads-reserved_u32 (λ _ zs g. Reads->>= _ Reads-u64 (λ c vs h.
      Reads->>= _ Reads-u64 (λ d ws k. Reads-pure _ (cc (e.0, f.0, g, h.0, k.0), refl))))))
Reads-payload Opcode.disconnect = Reads-pure _ (refl, refl)
Reads-payload Opcode.create_surface = Reads->>= _ Reads-u32 (λ a xs e.
    Reads->>= _ Reads-u32 (λ b ys f.
      Reads->>= _ Reads-u32
        (λ c zs g. Reads->>= _ Reads-u32 (λ d vs h. Reads-pure _ (cc (e.0, f.0, g.0, h.0), refl)))))
Reads-payload Opcode.destroy_surface = Reads-pure _ (refl, refl)
Reads-payload Opcode.set_title =
    Reads->>= _ Reads-take_str (λ s xs e. Reads-pure _ (ap (λ t. t ++ []) e, refl))
Reads-payload Opcode.set_app_id =
    Reads->>= _ Reads-take_str (λ s xs e. Reads-pure _ (ap (λ t. t ++ []) e, refl))
Reads-payload Opcode.ack_configure =
    Reads->>= _ Reads-u64 (λ a xs e. Reads-pure _ (ap (λ t. t ++ []) e.0, refl))
Reads-payload Opcode.import_buffer = Reads->>= _ Reads-u32 (λ a xs e.
    Reads->>= _ Reads-u32 (λ b ys f. Reads->>= _ Reads-u32 (λ c zs g.
      Reads->>= _ Reads-u32 (λ d vs h.
        Reads->>= _ Reads-u64 (λ o ws k. Reads-pure _ (cc (e.0, f.0, g.0, h.0, k.0), refl))))))
Reads-payload Opcode.destroy_buffer = Reads-pure _ (refl, refl)
Reads-payload Opcode.attach_buffer = Reads->>= _ Reads-u64 (λ b xs e.
    Reads->>= _ Reads-u32 (λ n ys f. Reads->>= _ Reads-reserved_u32 (λ _ zs g.
      Reads->>= _ (Reads-damage n) (λ rs vs h. Reads-pure _ (cc (e.0, f.0, g, h.0, h.1), refl)))))
Reads-payload Opcode.commit = Reads->>= _ Reads-u64 (λ a xs e.
    Reads->>= _ Reads-u32
      (λ b ys f. Reads->>= _ Reads-reserved_u32 (λ _ zs g. Reads-pure _ (cc (e.0, f.0, g), refl))))
Reads-payload _ = Reads-fail _

finish_inv : (c c' : Cursor) (u : Unit {0}) → finish c ≡ ok (u, c') → c.pos ≡ length c.b
unfolding finish
finish_inv c c' u e = go (c.pos != length c.b) refl e
  where
    end : Unit {0} × Cursor
    end = (tt, c)

    go :
        (b : Bool)
        → (c.pos != length c.b) ≡ b
        → (if b then err (malformed "trailing payload bytes") else ok end) ≡ ok (u, c')
        → c.pos ≡ length c.b
    go true k h = absurd (cc)
    go false k h = ground arith

-- The payload's parser, up to the payload's end.
abbrev whole_payload : Opcode → Parser Request
whole_payload op = read_payload op >>= λ req. finish >>= λ _. pure req

whole_inv :
    (op : Opcode) (bytes : List ℕ) (req : Request) (end : Cursor)
    → AreBytes bytes
    → whole_payload op (record { b = bytes; pos = 0 }) ≡ ok (req, end)
    → Spells op req bytes
whole_inv op bytes req end h e =
    let start : Cursor = record { b = bytes; pos = 0 } in
    let (r, c, k, l) = bind_inv (read_payload op) (λ r. finish >>= λ _. pure r) start req end e in
    let (u, c', k', l') = bind_inv finish (λ _. pure r) c req end l in
    let (xs, q, split, at, same) =
      (Reads-payload op).run start r c (record { bytes = h; inside = omega arith }) k in
    let rest : drop c.pos c.b ≡ [] = drop_all c.pos c.b (omega (arith, finish_inv c c' u k')) in
    let all : bytes ≡ xs = split ∙ ap (◌++◌ xs) rest ∙ append-nil xs in
    let last : r ≡ req = cc in subst (λ x. Spells op x bytes) last (all ∙ q.0, q.1)

-- Decoding accepts a payload only if it is the one that the decoded request is encoded to, under its own
-- opcode; so no two payloads decode to one request.
pub payload-decode :
    (op : Opcode) (bytes : List ℕ) (req : Request)
    → AreBytes bytes
    → decode op bytes ≡ ok req
    → (bytes ≡ payload req) × (opcode req ≡ op)
unfolding decode
payload-decode op bytes req h e =
    go (not (is_request op)) (whole_payload op (record { b = bytes; pos = 0 })) refl e
  where
    go :
        (b : Bool) (r : Result WireError (Request × Cursor))
        → whole_payload op (record { b = bytes; pos = 0 }) ≡ r
        → (if b
            then err (bad_opcode "not a request opcode")
            else elim r [ ok (req, _) ↦ ok req | err x ↦ err x ])
          ≡ ok req
        → (bytes ≡ payload req) × (opcode req ≡ op)
    go true r k l = absurd (cc)
    go false (err x) k l = absurd (cc)
    go false (ok (r, c)) k l =
        let same : r ≡ req = cc in whole_inv op bytes req c h (k ∙ ap (λ x. ok (x, c)) same)
