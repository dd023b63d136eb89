-- ===== src/Prelude/Utf8.antt =====
-- `str::from_utf8`: which bytes are UTF-8 (no overlong forms, no surrogates, nothing above U+10FFFF).
use Prim.Native.Nat.{ℕ, zero, suc, ◌<◌}
use mathlib.Core.Path.{◌≡◌, refl}
use native.Mathlib.Omega.{arith}
use mathlib.Core.Bool.{Bool, true, false, ◌&&◌}
use mathlib.Core.List.{[], ◌∷◌}
use mathlib.Core.Option.{Option, none, some}
use resolvd.Prelude.Tests.{if◌then◌else◌, leb, ltb, ◌==◌}
use resolvd.Prelude.Lists.{All}
use resolvd.Prelude.Slices.{Bytes}

-- Of a first byte: how many bytes follow, and the range of the next one.
abbrev lead : ℕ → Option (ℕ × ℕ × ℕ)
lead b =
    if ltb b 0x80
    then some (0, 0x80, 0xBF)
    else if ltb b 0xC2
    then none
    else if ltb b 0xE0
    then some (1, 0x80, 0xBF)
    else if b == 0xE0
    then some (2, 0xA0, 0xBF)
    else if b == 0xED
    then some (2, 0x80, 0x9F)
    else if ltb b 0xF0
    then some (2, 0x80, 0xBF)
    else if b == 0xF0
    then some (3, 0x90, 0xBF)
    else if ltb b 0xF4
    then some (3, 0x80, 0xBF)
    else if b == 0xF4
    then some (3, 0x80, 0x8F)
    else none

unfoldable utf8_tail : ℕ → ℕ → ℕ → Bytes → Bool
utf8_tail need lo hi [] = need == 0
utf8_tail zero lo hi (b ∷ s) = elim (lead b) [
  | none ↦ false
  | some (need, lo', hi') ↦ utf8_tail need lo' hi' s
]
utf8_tail (suc need) lo hi (b ∷ s) = leb lo b && (leb b hi && utf8_tail need 0x80 0xBF s)

unfoldable pub is_utf8 : Bytes → Bool
unfolding utf8_tail
is_utf8 = utf8_tail 0 0x80 0xBF

tail-ascii : (s : Bytes) → All (λ b. b < 128) s → utf8_tail 0 0x80 0xBF s ≡ true
unfolding utf8_tail
tail-ascii [] h = refl
tail-ascii (b ∷ s) h = ground (arith, h.0, tail-ascii s h.1)

pub is_utf8-ascii : (s : Bytes) → All (λ b. b < 128) s → is_utf8 s ≡ true
unfolding is_utf8
is_utf8-ascii s h = tail-ascii s h
