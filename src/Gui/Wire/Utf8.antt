-- ===== src/Gui/Wire/Utf8.antt =====
-- `core::str::from_utf8`: whether a sequence of bytes is well-formed UTF-8.
use dunit_os.Prelude.{ℕ, zero, suc, Bool, true, false, ◌&&◌, List, [], ◌∷◌, leb, ltb, if◌then◌else◌}

-- Between characters, within one (how many bytes are to come, the range of the next), or failed.
pub data Utf8State : Type 0 where
  start : Utf8State
  within : ℕ → ℕ → ℕ → Utf8State
  invalid : Utf8State

abbrev in_range : ℕ → ℕ → ℕ → Bool
in_range lo hi b = leb lo b && leb b hi

lead : ℕ → Utf8State
lead b =
    if ltb b 0x80
    then start
    else if in_range 0xc2 0xdf b
    then within 0 0x80 0xbf
    else if in_range 0xe0 0xe0 b
    then within 1 0xa0 0xbf
    else if in_range 0xed 0xed b
    then within 1 0x80 0x9f
    else if in_range 0xe1 0xef b
    then within 1 0x80 0xbf
    else if in_range 0xf0 0xf0 b
    then within 2 0x90 0xbf
    else if in_range 0xf1 0xf3 b
    then within 2 0x80 0xbf
    else if in_range 0xf4 0xf4 b
    then within 2 0x80 0x8f
    else invalid

next : Utf8State → ℕ → Utf8State
unfolding lead
next start b = lead b
next (within zero lo hi) b = if in_range lo hi b then start else invalid
next (within (suc n) lo hi) b = if in_range lo hi b then within n 0x80 0xbf else invalid
next invalid b = invalid

scan : Utf8State → List ℕ → Bool
unfolding next
scan start [] = true
scan _ [] = false
scan s (b ∷ bs) = scan (next s b) bs

unfoldable pub is_utf8 : List ℕ → Bool
unfolding scan
is_utf8 bs = scan start bs
