-- ===== src/Dns/Wire/Sound.antt =====
-- `Name::read` on any input: it ends, and what it returns is a name that the message holds.
use Prim.Native.Nat.{bit_and}
use resolvd.Prelude.{
  ℕ, zero, suc, ◌+◌, ◌-◌, ◌*◌, ◌^◌, ◌<◌, ◌≤◌, ◌≡◌, ◌≢◌, refl, sym, subst, ◌∙◌, true, [], ◌∷◌, ◌++◌,
  Option, none, some, length, get_elem?, get_elem?-lt, slice_bounds, All, ltb, ◌==◌, all_below,
  all_below_sound, ==_iff, Bytes, IsByte, slice, ok, stuck, ok_or, if◌then◌else◌, Result-cases,
  arith, inl, inr, Option-cases, ◌⊎◌, >>=-eq-ok, All-append, Bool-cases,
}
use resolvd.Dns.Name.{Name, Error, truncated, labels_len, max_name_len}
use resolvd.Dns.Name.Valid.{IsLabel, IsName, labels_len-append}
use resolvd.Dns.Wire.{
  Cursor, Round, finished, more, start, or_else, read_label, read_pointer, read_arm, read_step,
  read_loop, read, read_fuel,
}

-- The number of rounds that are left is below this.
abbrev rounds : Cursor → ℕ
rounds c = (max_name_len - c.total) + (64 - c.hops)

read_label-rounds :
    (msg : Bytes) (c c' : Cursor) (len : ℕ)
    → read_label msg c len ≡ ok (more c')
    → rounds c' < rounds c
unfolding read_label
read_label-rounds msg c c' len h = ground arith

read_pointer-rounds :
    (msg : Bytes) (c c' : Cursor) (len : ℕ)
    → read_pointer msg c len ≡ ok (more c')
    → rounds c' < rounds c
unfolding read_pointer
read_pointer-rounds msg c c' len h = ground arith

abbrev Arms : Bytes → Cursor → Round → ℕ → Type 0
Arms msg c r len =
    (bit_and len 0xC0 ≡ 0) × (read_label msg c len ≡ ok r) ⊎ (read_pointer msg c len ≡ ok r)

read_arm-eq-ok :
    (msg : Bytes) (c : Cursor) (len : ℕ) (r : Round) → read_arm msg c len ≡ ok r → Arms msg c r len
unfolding read_arm
read_arm-eq-ok msg c len r h = elim (Bool-cases (bit_and len 0xC0 == 0)) [
  | inl k ↦ inl ((==_iff _ _).0 k, rw k at h)
  | inr k ↦ inr (ground arith)
]

ok_or-eq-ok : {A : Type 0} (o : Option A) (e : Error) {a : A} → ok_or o e ≡ ok a → o ≡ some a
ok_or-eq-ok none e h = cc
ok_or-eq-ok (some a) e h = cc

-- A round that succeeds is one of two arms, at the length byte that stands at `p`.
read_step-eq-ok :
    (msg : Bytes) (c : Cursor) (r : Round)
    → read_step msg c ≡ ok r
    → (len : ℕ) × (get_elem? msg c.p ≡ some len) × Arms msg c r len
unfolding read_step
read_step-eq-ok msg c r h =
    let (len, e, k) = >>=-eq-ok (ok_or (get_elem? msg c.p) truncated) (read_arm msg c) h in
    (len, ok_or-eq-ok _ _ e, read_arm-eq-ok msg c len r k)

read_step-rounds :
    (msg : Bytes) (c c' : Cursor) → read_step msg c ≡ ok (more c') → rounds c' < rounds c
read_step-rounds msg c c' h =
    let (len, e, k) = read_step-eq-ok msg c (more c') h in
    elim k [
      | inl (z, k) ↦ read_label-rounds msg c c' len k
      | inr k ↦ read_pointer-rounds msg c c' len k
    ]

read_step-ne-stuck : (msg : Bytes) (c : Cursor) → read_step msg c ≢ stuck
unfolding read_step read_arm read_label read_pointer
read_step-ne-stuck msg c h = ground arith

read_loop-ne-stuck :
    (msg : Bytes) (fuel : ℕ) (c : Cursor) → rounds c < fuel → read_loop msg fuel c ≢ stuck
unfolding read_loop
read_loop-ne-stuck msg zero c h = absurd (omega arith)
read_loop-ne-stuck msg (suc fuel) c h =
    elim (Result-cases (read_step msg c) (read_step-ne-stuck msg c)) [
      | inl (finished x, e) ↦ rw e (λ p. cc)
      | inl (more c', e) ↦
          rw e (read_loop-ne-stuck msg fuel c' (omega (arith, read_step-rounds msg c c' e)))
      | inr (x, e) ↦ rw e (λ p. cc)
    ]

-- `Name::read` ends on every input: its loop never runs out of the model's fuel.
pub read-ne-stuck : (msg : Bytes) (pos : ℕ) → read msg pos ≢ stuck
unfolding read
read-ne-stuck msg pos = read_loop-ne-stuck msg read_fuel (start pos) (omega arith)

abbrev Ends : ℕ → ℕ → ℕ → Option ℕ → Type 0
Ends size pos p none = pos ≤ p
Ends size pos p (some e) = (pos < e) × (e ≤ size)

-- What holds of the loop's variables: `pos` is where the read began.
record IsCursor (msg : Bytes) (pos : ℕ) (c : Cursor) : Type 0 where
  labels : All IsLabel c.labels
  total : c.total ≡ labels_len c.labels
  fits : c.total + 1 ≤ max_name_len
  ends : Ends (length msg) pos c.p c.end

-- The result of a read from `pos`.
pub record IsRead (msg : Bytes) (pos : ℕ) (x : Name × ℕ) : Type 0 where
  pub name : IsName x.0
  pub forward : pos < x.1
  pub inside : x.1 ≤ length msg

short_label_table : all_below 256 (λ b. if bit_and b 0xC0 == 0 then ltb b 64 else true) ≡ true
unfolding all_below
short_label_table = refl

short_label : (b : ℕ) → b < 256 → bit_and b 0xC0 ≡ 0 → b ≤ 63
short_label b h z =
    let t : (if bit_and b 0xC0 == 0 then ltb b 64 else true) ≡ true =
      all_below_sound 256 (λ b. if bit_and b 0xC0 == 0 then ltb b 64 else true) b short_label_table
        h in
    ground arith

get_elem?-IsByte :
    (msg : Bytes) (p : ℕ) {x : ℕ} → All IsByte msg → get_elem? msg p ≡ some x → x < 256
get_elem?-IsByte [] p h e = cc
get_elem?-IsByte (y ∷ msg) zero h e = ground (arith, h.0)
get_elem?-IsByte (y ∷ msg) (suc p) h e = get_elem?-IsByte msg p h.1 e

-- The cursor after a label.
abbrev after_label : Cursor → Bytes → Cursor
after_label c label = record c {
  labels = c.labels ++ label ∷ [];
  total = c.total + length label + 1;
  p = c.p + 1 + length label;
}

read_label-eq-more :
    (msg : Bytes) (c c' : Cursor) (len : ℕ)
    → read_label msg c len ≡ ok (more c')
    → (label : Bytes) × (c' ≡ after_label c label)
      × (len ≡ length label)
      × (1 ≤ length label)
      × (c.total + length label + 2 ≤ max_name_len)
unfolding read_label
read_label-eq-more msg c c' len h = elim (Option-cases (slice msg (c.p + 1) len)) [
  | inl e ↦ ground arith
  | inr (label, e) ↦ (
    label,
    ground (arith, slice_bounds msg (c.p + 1) len {s = label}),
    ground (arith, slice_bounds msg (c.p + 1) len {s = label}),
    ground (arith, slice_bounds msg (c.p + 1) len {s = label}),
    ground (arith, slice_bounds msg (c.p + 1) len {s = label}),
  )
]

Ends-weaken : (size pos p q : ℕ) (e : Option ℕ) → p ≤ q → Ends size pos p e → Ends size pos q e
Ends-weaken size pos p q none h k = omega arith
Ends-weaken size pos p q (some e) h k = k

or_else-Ends :
    (size pos p q : ℕ) (e : Option ℕ)
    → Ends size pos p e
    → p < q
    → q ≤ size
    → (pos < or_else e q) × (or_else e q ≤ size)
or_else-Ends size pos p q none h k l = omega arith
or_else-Ends size pos p q (some e) h k l = h

read_label-eq-finished :
    (msg : Bytes) (c : Cursor) (len : ℕ) (x : Name × ℕ)
    → read_label msg c len ≡ ok (finished x)
    → x ≡ (record { labels = c.labels }, or_else c.end (c.p + 1))
unfolding read_label
read_label-eq-finished msg c len x h = ground arith

read_pointer-eq-more :
    (msg : Bytes) (c c' : Cursor) (len : ℕ)
    → read_pointer msg c len ≡ ok (more c')
    → (target : ℕ) × (c'
        ≡ record c { p = target; end = some (or_else c.end (c.p + 2)); hops = c.hops + 1 })
      × (c.p + 2 ≤ length msg)
unfolding read_pointer
read_pointer-eq-more msg c c' len h = elim (Option-cases (get_elem? msg (c.p + 1))) [
  | inl e ↦ ground arith
  | inr (lo, e) ↦
      (bit_and len 0x3F * 2 ^ 8 + lo, ground arith, omega (arith, get_elem?-lt msg (c.p + 1) e))
]

read_pointer-ne-finished :
    (msg : Bytes) (c : Cursor) (len : ℕ) (x : Name × ℕ) → read_pointer msg c len ≢ ok (finished x)
unfolding read_pointer
read_pointer-ne-finished msg c len x h = ground arith

module _ (msg : Bytes) (pos : ℕ) (c : Cursor) (inv : IsCursor msg pos c) (len : ℕ) where
  read_label-IsCursor :
      (c' : Cursor) → len ≤ 63 → read_label msg c len ≡ ok (more c') → IsCursor msg pos c'
  read_label-IsCursor c' small h =
      let (label, e, n, one, fits) = read_label-eq-more msg c c' len h in
      subst (IsCursor msg pos) (sym e) (record {
        labels = All-append IsLabel c.labels (label ∷ []) inv.labels (omega arith);
        total = omega (arith, labels_len-append c.labels (label ∷ []), inv.total);
        fits = omega arith;
        ends =
            Ends-weaken (length msg) pos c.p (c.p + 1 + length label) c.end (omega arith) inv.ends;
      })

  read_label-IsRead :
      (x : Name × ℕ) → c.p < length msg → read_label msg c len ≡ ok (finished x) → IsRead msg pos x
  read_label-IsRead x h e =
      let k = read_label-eq-finished msg c len x e in
      let (after, inside) =
        or_else-Ends (length msg) pos c.p (c.p + 1) c.end inv.ends (omega arith) (omega arith) in
      subst (IsRead msg pos) (sym k) (record {
        name = record { labels = inv.labels; fits = omega (arith, inv.total, inv.fits) };
        forward = after;
        inside = inside;
      })

  read_pointer-IsCursor :
      (c' : Cursor) → read_pointer msg c len ≡ ok (more c') → IsCursor msg pos c'
  read_pointer-IsCursor c' h =
      let (target, e, room) = read_pointer-eq-more msg c c' len h in
      subst (IsCursor msg pos) (sym e) (record {
        labels = inv.labels;
        total = inv.total;
        fits = inv.fits;
        ends = or_else-Ends (length msg) pos c.p (c.p + 2) c.end inv.ends (omega arith) room;
      })

read_step-IsCursor :
    (msg : Bytes) (pos : ℕ) (c c' : Cursor)
    → All IsByte msg
    → IsCursor msg pos c
    → read_step msg c ≡ ok (more c')
    → IsCursor msg pos c'
read_step-IsCursor msg pos c c' bytes inv h =
    let (len, e, k) = read_step-eq-ok msg c (more c') h in
    elim k [
      | inl (z, k) ↦
          read_label-IsCursor msg pos c inv len c'
            (short_label len (get_elem?-IsByte msg c.p bytes e) z) k
      | inr k ↦ read_pointer-IsCursor msg pos c inv len c' k
    ]

read_step-IsRead :
    (msg : Bytes) (pos : ℕ) (c : Cursor) (x : Name × ℕ)
    → IsCursor msg pos c
    → read_step msg c ≡ ok (finished x)
    → IsRead msg pos x
read_step-IsRead msg pos c x inv h =
    let (len, e, k) = read_step-eq-ok msg c (finished x) h in
    elim k [
      | inl (z, k) ↦ read_label-IsRead msg pos c inv len x (get_elem?-lt msg c.p e) k
      | inr k ↦ absurd (read_pointer-ne-finished msg c len x k)
    ]

read_loop-IsRead :
    (msg : Bytes) (pos fuel : ℕ) (c : Cursor) (x : Name × ℕ)
    → All IsByte msg
    → IsCursor msg pos c
    → read_loop msg fuel c ≡ ok x
    → IsRead msg pos x
unfolding read_loop
read_loop-IsRead msg pos zero c x bytes inv h = cc
read_loop-IsRead msg pos (suc fuel) c x bytes inv h =
    elim (Result-cases (read_step msg c) (read_step-ne-stuck msg c)) [
      | inl (finished y, e) ↦ read_step-IsRead msg pos c x inv (e ∙ cc (rw e at h))
      | inl (more c', e) ↦
          read_loop-IsRead msg pos fuel c' x bytes (read_step-IsCursor msg pos c c' bytes inv e)
            (rw e at h)
      | inr (y, e) ↦ cc (rw e at h)
    ]

-- Whatever the bytes, a name that `Name::read` returns is well formed (labels of 1 to 63 bytes, at
-- most 255 bytes on the wire), and the position behind it lies after `pos` and within the message.
pub read-IsRead :
    (msg : Bytes) (pos : ℕ) (x : Name × ℕ) → All IsByte msg → read msg pos ≡ ok x → IsRead msg pos x
unfolding read
read-IsRead msg pos x bytes h =
    read_loop-IsRead msg pos read_fuel (start pos) x bytes
      (record { labels = tt; total = refl; fits = omega arith; ends = omega arith }) h
