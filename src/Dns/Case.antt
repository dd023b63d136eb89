-- ===== src/Dns/Case.antt =====
-- `Name::randomise_case` of dns/src/lib.rs. The source of bits is a stream with the number of bits
-- already drawn.
pub mod Equal
pub mod Random
use Prim.Native.Nat.{bit_xor}
use resolvd.Prelude.{ℕ, suc, ◌+◌, Bool, true, false, List, [], ◌∷◌, if◌then◌else◌, Bytes}
use resolvd.Dns.Name.{Name, is_alphabetic}

unfoldable pub randomise_label : (ℕ → Bool) → ℕ → Bytes → Bytes × ℕ
unfolding is_alphabetic
randomise_label bits n [] = ([], n)
randomise_label bits n (b ∷ l) =
    let drawn : ℕ = if is_alphabetic b then n + 1 else n in
    let byte : ℕ = if is_alphabetic b then (if bits n then bit_xor b 0x20 else b) else b in
    let (l', m) = randomise_label bits drawn l in (byte ∷ l', m)

unfoldable pub randomise_labels : (ℕ → Bool) → ℕ → List Bytes → List Bytes
unfolding randomise_label
randomise_labels bits n [] = []
randomise_labels bits n (l ∷ ls) =
    let (l', m) = randomise_label bits n l in l' ∷ randomise_labels bits m ls

unfoldable pub randomise_case : Name → (ℕ → Bool) → Name
unfolding randomise_labels
randomise_case n bits = record { labels = randomise_labels bits 0 n.labels }
