-- ===== src/Dns/Wire/RoundTrip.antt =====
-- `Name::read` reads back what `Name::write` wrote, directly and through a pointer.
use Prim.Native.Nat.{bit_and}
use resolvd.Prelude.{
  ℕ, zero, suc, ◌+◌, ◌^◌, ◌%◌, ◌<◌, ◌≤◌, ◌≡◌, refl, ap, ap₂, subst, ◌∙◌, true, List, [], ◌∷◌, ◌++◌,
  some, length, length-append, get_elem?, All, ◌==◌, all_below, all_below_sound, &&-elim, ◌&&◌, ◌/◌,
  ==_iff, Bytes, slice, StandsAt, get_elem?-at, StandsAt-suc, StandsAt-append, slice-at, ok, arith,
}
use mathlib.Core.List.{append_assoc, append-nil}
use native.Mathlib.Nat.{add-zero}
use resolvd.Dns.Name.{Name, labels_len, wire_len, max_name_len}
use resolvd.Dns.Name.Valid.{IsLabel, IsName}
use resolvd.Dns.Wire.{
  Cursor, finished, more, start, or_else, write_labels, write, read_label, read_pointer, read_arm,
  read_step, read_loop, read, read_fuel,
}

label_mask_table : all_below 64 (λ b. bit_and b 0xC0 == 0) ≡ true
unfolding all_below
label_mask_table = refl

label_mask : (b : ℕ) → b ≤ 63 → bit_and b 0xC0 ≡ 0
label_mask b h =
    (==_iff _ _).0 (all_below_sound 64 (λ b. bit_and b 0xC0 == 0) b label_mask_table (omega arith))

-- The cursor after a label.
abbrev after_label : Cursor → Bytes → Cursor
after_label c label = record c {
  labels = c.labels ++ label ∷ [];
  total = c.total + length label + 1;
  p = c.p + 1 + length label;
}

module _ (msg : Bytes) (c : Cursor) where
  read_step-label :
      (l t : Bytes)
      → IsLabel l
      → c.total + length l + 2 ≤ max_name_len
      → StandsAt msg c.p ((length l % 2 ^ 8) ∷ (l ++ t))
      → read_step msg c ≡ ok (more (after_label c l))
  unfolding read_step read_arm read_label
  read_step-label l t valid fits at =
      let short : length l % 2 ^ 8 ≡ length l = omega arith in
      let byte : get_elem? msg c.p ≡ some (length l) = get_elem?-at msg c.p _ at ∙ ap some short in
      let text : slice msg (c.p + 1) (length l) ≡ some l =
        slice-at msg (c.p + 1) l t
          (subst (λ q. StandsAt msg q (l ++ t)) (omega arith) (StandsAt-suc msg c.p _ at)) in
      ground (arith, byte, text, label_mask (length l))

  read_step-root :
      (t : Bytes)
      → StandsAt msg c.p (0 ∷ t)
      → read_step msg c ≡ ok (finished (record { labels = c.labels }, or_else c.end (c.p + 1)))
  unfolding read_step read_arm read_label
  read_step-root t at = ground (arith, get_elem?-at msg c.p 0 at, label_mask 0)

-- The loop over what `write_labels` wrote. A pointer that led here has left its `end`.
read_loop-labels :
    (msg : Bytes) (fuel : ℕ) (c : Cursor) (ls : List Bytes) (t : Bytes)
    → All IsLabel ls
    → c.total + labels_len ls + 1 ≤ max_name_len
    → length ls < fuel
    → StandsAt msg c.p (write_labels ls ++ (0 ∷ t))
    → read_loop msg fuel c
      ≡ ok (record { labels = c.labels ++ ls }, or_else c.end (c.p + labels_len ls + 1))
unfolding read_loop write_labels
read_loop-labels msg zero c ls t valid fits enough at = absurd (omega arith)
read_loop-labels msg (suc fuel) c [] t valid fits enough at =
    rw (read_step-root msg c t at, append-nil, add-zero)
read_loop-labels msg (suc fuel) c (l ∷ ls) t valid fits enough at =
    let rest : Bytes = write_labels ls ++ (0 ∷ t) in
    let at' : StandsAt msg c.p ((length l % 2 ^ 8) ∷ (l ++ rest)) =
      subst (λ r. StandsAt msg c.p ((length l % 2 ^ 8) ∷ r))
        (append_assoc l (write_labels ls) (0 ∷ t)) at in
    let behind : StandsAt msg (c.p + 1 + length l) rest =
      subst (λ q. StandsAt msg q rest) (omega arith)
        (StandsAt-append msg (suc c.p) l (StandsAt-suc msg c.p _ at')) in
    rw (read_step-label msg c l rest valid.0 (omega arith) at') (
      read_loop-labels msg fuel (after_label c l) ls t valid.1 (omega arith) (omega arith) behind
      ∙ ap₂ (λ ns q. ok (record { labels = ns }, or_else c.end q))
          (append_assoc c.labels (l ∷ []) ls) (omega arith))

length-le-labels_len : (ls : List Bytes) → length ls ≤ labels_len ls
length-le-labels_len [] = omega arith
length-le-labels_len (l ∷ ls) = omega (arith, length-le-labels_len ls)

-- Where a well-formed name was written at `p`, `Name::read` returns that name, in the same case, and
-- the position behind its `wire_len` bytes, whatever stands before and after it.
pub read-write :
    (msg : Bytes) (p : ℕ) (n : Name) (t : Bytes)
    → IsName n
    → StandsAt msg p (write n ++ t)
    → read msg p ≡ ok (n, p + wire_len n)
unfolding read write wire_len
read-write msg p n t valid at =
    read_loop-labels msg read_fuel (start p) n.labels t valid.labels (omega (arith, valid.fits))
      (omega (arith, length-le-labels_len n.labels, valid.fits))
      (subst (StandsAt msg p) (append_assoc (write_labels n.labels) (0 ∷ []) t) at)
    ∙ ap (λ q. ok (n, q)) (omega arith)

pointer_table :
    all_below 64 (λ b. bit_and (b + 192) 0xC0 == 192 && bit_and (b + 192) 0x3F == b) ≡ true
unfolding all_below
pointer_table = refl

pointer_mask : (b : ℕ) → b < 64 → (bit_and (b + 192) 0xC0 ≡ 192) × (bit_and (b + 192) 0x3F ≡ b)
pointer_mask b h =
    let (m, v) = &&-elim _ _ (
      all_below_sound 64 (λ b. bit_and (b + 192) 0xC0 == 192 && bit_and (b + 192) 0x3F == b) b
        pointer_table h) in
    ((==_iff _ _).0 m, (==_iff _ _).0 v)

read_step-pointer :
    (msg : Bytes) (p q : ℕ) (t : Bytes)
    → q < p
    → q < 2 ^ 14
    → StandsAt msg p ((q / 2 ^ 8 + 192) ∷ (q % 2 ^ 8) ∷ t)
    → read_step msg (start p)
      ≡ ok (more (record { labels = []; total = 0; p = q; end = some (p + 2); hops = 1 }))
unfolding read_step read_arm read_pointer
read_step-pointer msg p q t back small at =
    let hi : get_elem? msg p ≡ some (q / 2 ^ 8 + 192) = get_elem?-at msg p _ at in
    let lo : get_elem? msg (p + 1) ≡ some (q % 2 ^ 8) =
      subst (λ r. get_elem? msg r ≡ some (q % 2 ^ 8)) (omega arith)
        (get_elem?-at msg (suc p) _ (StandsAt-suc msg p _ at)) in
    let (tag, value) = pointer_mask (q / 2 ^ 8) (omega arith) in ground (arith, hi, lo, tag, value)

-- RFC 1035 compression: a pointer at `p` to an earlier position `q`, where a well-formed name was
-- written, reads as that name, and the position behind it is that behind the pointer's two bytes.
pub read-pointer :
    (msg : Bytes) (p q : ℕ) (n : Name) (t u : Bytes)
    → IsName n
    → q < p
    → q < 2 ^ 14
    → StandsAt msg q (write n ++ t)
    → StandsAt msg p ((q / 2 ^ 8 + 192) ∷ (q % 2 ^ 8) ∷ u)
    → read msg p ≡ ok (n, p + 2)
unfolding read write
read-pointer msg p q n t u valid back small name pointer =
    unfold read_loop in
    rw (read_step-pointer msg p q u back small pointer) (
      read_loop-labels msg 319
        (record { labels = []; total = 0; p = q; end = some (p + 2); hops = 1 }) n.labels t
        valid.labels (omega (arith, valid.fits))
        (omega (arith, length-le-labels_len n.labels, valid.fits))
        (subst (StandsAt msg q) (append_assoc (write_labels n.labels) (0 ∷ []) t) name))

length-write_labels : (ls : List Bytes) → length (write_labels ls) ≡ labels_len ls
unfolding write_labels
length-write_labels [] = refl
length-write_labels (l ∷ ls) =
    omega (arith, length-append l (write_labels ls), length-write_labels ls)

-- `wire_len` is the number of bytes that `write` appends.
pub length-write : (n : Name) → length (write n) ≡ wire_len n
unfolding write wire_len
length-write n =
    omega (arith, length-append (write_labels n.labels) (0 ∷ []), length-write_labels n.labels)

pub wire_len_bounds : (n : Name) → IsName n → (1 ≤ wire_len n) × (wire_len n ≤ 255)
unfolding wire_len
wire_len_bounds n v = omega (arith, v.fits)
