-- ===== src/Prelude/BigEndian.antt =====
-- `to_be_bytes` and `from_be_bytes`.
use resolvd.Prelude.Slices.{Bytes, IsByte}
use resolvd.Prelude.Lists.{length, All}
use Prim.Native.Nat.{ℕ, zero, suc, ◌+◌, ◌*◌, ◌/◌, ◌%◌, ◌^◌, ◌<◌}
use mathlib.Core.Path.{◌≡◌, refl, ap}
use mathlib.Core.List.{[], ◌∷◌}
use native.Mathlib.Omega.{arith}

-- The `k` bytes of a number, the highest first.
abbrev pub to_be : ℕ → ℕ → Bytes
to_be zero v = []
to_be (suc k) v = (v / 256 ^ k % 256) ∷ to_be k v

abbrev be_onto : ℕ → Bytes → ℕ
be_onto acc [] = acc
be_onto acc (b ∷ bs) = be_onto (acc * 256 + b) bs

abbrev pub from_be : Bytes → ℕ
from_be = be_onto 0

pub length-to_be : (k v : ℕ) → length (to_be k v) ≡ k
length-to_be zero v = refl
length-to_be (suc k) v = ap suc (length-to_be k v)

pub to_be-IsByte : (k v : ℕ) → All IsByte (to_be k v)
to_be-IsByte zero v = tt
to_be-IsByte (suc k) v = (omega arith, to_be-IsByte k v)

pub from_be-to_be_2 : (v : ℕ) → v < 2 ^ 16 → from_be (to_be 2 v) ≡ v
from_be-to_be_2 v h = omega arith

pub from_be-to_be_4 : (v : ℕ) → v < 2 ^ 32 → from_be (to_be 4 v) ≡ v
from_be-to_be_4 v h = omega arith

pub from_be-to_be_8 : (v : ℕ) → v < 2 ^ 64 → from_be (to_be 8 v) ≡ v
from_be-to_be_8 v h = omega arith

pub from_be-to_be_16 : (v : ℕ) → v < 2 ^ 128 → from_be (to_be 16 v) ≡ v
from_be-to_be_16 v h = omega arith
