-- ===== src/Msgpack/Skip/Ends.antt =====
-- `Reader::skip` of resolvd-core/src/msgpack.rs ends on every input.
use resolvd.Prelude.{
  ℕ, zero, suc, ◌+◌, ◌*◌, ◌≡◌, ◌≢◌, ◌≤◌, ◌<◌, refl, sym, subst, ◌∙◌, Bool, true, false, not, [],
  ◌∷◌, length, length-drop, leb, ltb, Bool-cases, inl, inr, is_utf8, arith, Result, ok, err, stuck,
  ◌>>=◌, ◌>>◌, require, Ensures, Ensures-bind, Ensures-weaken, Ensures-ne-stuck, Ensures-ok,
  from_be, Bytes,
}
use resolvd.Msgpack.{Error, truncated, utf8}
use resolvd.Msgpack.Reader.{
  Reader, Read, max_depth, byte, take_bytes, be_u, str_length, read_str_length, read_str,
  bin_length, read_bin_length, read_bin, array_length, read_array, map_length, read_map,
}
use resolvd.Msgpack.Skip.{
  Form, single, fixed, ext, str, bin, array, map_form, reserved, form_of, Skipped, repeat, nested,
  twice, skip_fixed, skip_ext, skip_form, skip_within, skip_fuel, skip,
}

-- At a depth, with at most so many bytes left.
abbrev Within : ℕ → ℕ → Reader → Type 0
Within d n r = (r.depth ≡ d) × (length r.rest ≤ n)

abbrev After : {A : Type 0} → ℕ → ℕ → A × Reader → Type 0
After d n x = Within d n x.1

byte-After : (r : Reader) (n : ℕ) → length r.rest ≤ suc n → Ensures (After r.depth n) (byte r)
unfolding byte
byte-After r n h = first r.rest h
  where
    first :
        (t : Bytes)
        → length t ≤ suc n
        → Ensures
            (After r.depth n)
            (elim t [ [] ↦ err truncated | b ∷ u ↦ ok (b, record r { rest = u }) ])
    first [] h = tt
    first (b ∷ u) h = (refl, omega (arith, h))

take_bytes-After : (k : ℕ) (r : Reader) → Ensures (After r.depth (length r.rest)) (take_bytes k r)
unfolding take_bytes
take_bytes-After k r = elim (Bool-cases (leb k (length r.rest))) [
  | inl there ↦ rw (there) (refl, omega (arith, length-drop k r.rest))
  | inr short ↦ rw (short) tt
]

be_u-After : (k : ℕ) (r : Reader) → Ensures (After r.depth (length r.rest)) (be_u k r)
unfolding be_u
be_u-After k r =
    Ensures-bind (After r.depth (length r.rest)) (After r.depth (length r.rest)) (take_bytes k r)
      (λ x. ok (from_be x.0, x.1)) (take_bytes-After k r) (λ x h. h)

str_length-After : (b : ℕ) (r : Reader) → Ensures (After r.depth (length r.rest)) (str_length b r)
unfolding str_length
str_length-After b r = ground (arith, be_u-After 1 r, be_u-After 2 r, be_u-After 4 r)

bin_length-After : (b : ℕ) (r : Reader) → Ensures (After r.depth (length r.rest)) (bin_length b r)
unfolding bin_length
bin_length-After b r = ground (arith, be_u-After 1 r, be_u-After 2 r, be_u-After 4 r)

array_length-After :
    (b : ℕ) (r : Reader) → Ensures (After r.depth (length r.rest)) (array_length b r)
unfolding array_length
array_length-After b r = ground (arith, be_u-After 2 r, be_u-After 4 r)

map_length-After : (b : ℕ) (r : Reader) → Ensures (After r.depth (length r.rest)) (map_length b r)
unfolding map_length
map_length-After b r = ground (arith, be_u-After 2 r, be_u-After 4 r)

-- A step that starts within a bound stays within it.
follow :
    {A B : Type 0} (Q : B → Type 0) (d n : ℕ) (r : Reader) (m : Read A)
    (f : A × Reader → Result Error B)
    → Within d n r
    → Ensures (After r.depth (length r.rest)) m
    → ((x : A × Reader) → After d n x → Ensures Q (f x))
    → Ensures Q (m >>= f)
follow Q d n r m f here h k =
    Ensures-bind (After r.depth (length r.rest)) Q m f h
      (λ x p. k x (p.0 ∙ here.0, omega (arith, p.1, here.1)))

-- A whole value read from a byte on.
first :
    {B : Type 0} (Q : B → Type 0) (r : Reader) (n : ℕ) (f : ℕ × Reader → Result Error B)
    → length r.rest ≤ suc n
    → ((x : ℕ × Reader) → After r.depth n x → Ensures Q (f x))
    → Ensures Q (byte r >>= f)
first Q r n f h k = Ensures-bind (After r.depth n) Q (byte r) f (byte-After r n h) k

weaken :
    {A : Type 0} (d n : ℕ) (r : Reader) (m : Read A)
    → Within d n r
    → Ensures (After r.depth (length r.rest)) m
    → Ensures (After d n) m
weaken d n r m here h =
    Ensures-weaken (After r.depth (length r.rest)) (After d n) m h
      (λ x p. (p.0 ∙ here.0, omega (arith, p.1, here.1)))

module _ (r : Reader) (n : ℕ) (h : length r.rest ≤ suc n) where
  length_first :
      (body : ℕ → Reader → Read ℕ)
      → ((b : ℕ) (s : Reader) → Ensures (After s.depth (length s.rest)) (body b s))
      → Ensures (After r.depth n) (byte r >>= λ x. body x.0 x.1)
  length_first body k =
      first (After r.depth n) r n (λ x. body x.0 x.1) h
        (λ x here. weaken r.depth n x.1 (body x.0 x.1) here (k x.0 x.1))

  taken :
      {B : Type 0} (Q : B → Type 0) (m : Read ℕ) (f : Bytes × Reader → Result Error B)
      → Ensures (After r.depth n) m
      → ((x : Bytes × Reader) → After r.depth n x → Ensures Q (f x))
      → Ensures Q (m >>= λ x. take_bytes x.0 x.1 >>= f)
  taken Q m f k next =
      Ensures-bind (After r.depth n) Q m (λ x. take_bytes x.0 x.1 >>= f) k
        (λ x here.
          follow Q r.depth n x.1 (take_bytes x.0 x.1) f here (take_bytes-After x.0 x.1) next)

  checked :
      {A : Type 0} (b : Bool) (x : A × Reader) (e : Error)
      → After r.depth n x
      → Ensures (After r.depth n) (require b e >> ok x)
  checked true x e here = here
  checked false x e here = tt

  read_str-After : Ensures (After r.depth n) (read_str r)
  unfolding read_str read_str_length
  read_str-After =
      taken (After r.depth n) (read_str_length r) _ (length_first str_length str_length-After)
        (λ x here. checked (is_utf8 x.0) x utf8 here)

  read_bin-After : Ensures (After r.depth n) (read_bin r)
  unfolding read_bin read_bin_length
  read_bin-After =
      Ensures-bind (After r.depth n) (After r.depth n) (read_bin_length r) (λ x. take_bytes x.0 x.1)
        (length_first bin_length bin_length-After)
        (λ x here. weaken r.depth n x.1 (take_bytes x.0 x.1) here (take_bytes-After x.0 x.1))

  read_array-After : Ensures (After r.depth n) (read_array r)
  unfolding read_array
  read_array-After = first (After r.depth n) r n _ h (λ x here.
      follow (After r.depth n) r.depth n x.1 (array_length x.0 x.1) _ here
        (array_length-After x.0 x.1)
        (λ y there. checked (not (ltb (length y.1.rest) y.0)) y truncated there))

  read_map-After : Ensures (After r.depth n) (read_map r)
  unfolding read_map
  read_map-After = first (After r.depth n) r n _ h (λ x here.
      follow (After r.depth n) r.depth n x.1 (map_length x.0 x.1) _ here (map_length-After x.0 x.1)
        (λ y there. checked (not (ltb (length y.1.rest) (y.0 * 2))) y truncated there))

  skip_fixed-Within : (k : ℕ) → Ensures (Within r.depth n) (skip_fixed k r)
  unfolding skip_fixed
  skip_fixed-Within k = first (Within r.depth n) r n _ h (λ x here.
      follow (Within r.depth n) r.depth n x.1 (take_bytes k x.1) _ here (take_bytes-After k x.1)
        (λ y there. there))

  skip_ext-Within : (width : ℕ) → Ensures (Within r.depth n) (skip_ext width r)
  unfolding skip_ext
  skip_ext-Within width = first (Within r.depth n) r n _ h (λ x here.
      follow (Within r.depth n) r.depth n x.1 (be_u width x.1) _ here (be_u-After width x.1)
        (λ y there.
          follow (Within r.depth n) r.depth n y.1 (byte y.1) _ there
            (byte-After y.1 (length y.1.rest) (omega arith))
            (λ z at.
              follow (Within r.depth n) r.depth n z.1 (take_bytes y.0 z.1) _ at
                (take_bytes-After y.0 z.1) (λ w end. end))))

-- A function that skips a value at a depth, or ends with an error.
abbrev Skips : ℕ → (Reader → Skipped) → Type 0
Skips d f = (r : Reader) (n : ℕ) → r.depth ≡ d → length r.rest ≤ suc n → Ensures (Within d n) (f r)

repeat-Within :
    (d : ℕ) (f : Reader → Skipped)
    → Skips d f
    → (k : ℕ) (r : Reader) (n : ℕ) → Within d n r
    → Ensures (Within d n) (repeat k f r)
unfolding repeat
repeat-Within d f skips zero r n here = here
repeat-Within d f skips (suc k) r n here =
    Ensures-bind (Within d n) (Within d n) (f r) (repeat k f)
      (skips r n here.0 (omega (arith, here.1))) (λ s there. repeat-Within d f skips k s n there)

twice-Skips : (d : ℕ) (f : Reader → Skipped) → Skips d f → Skips d (twice f)
twice-Skips d f skips r n same h =
    Ensures-bind (Within d n) (Within d n) (f r) f (skips r n same h)
      (λ s there. skips s n there.0 (omega (arith, there.1)))

nested-Within :
    (f : Reader → Skipped) (r : Reader) (n : ℕ)
    → length r.rest ≤ n
    → (r.depth < max_depth
        → Ensures (Within (r.depth + 1) n) (f (record r { depth = r.depth + 1 })))
    → Ensures (Within r.depth n) (nested f r)
unfolding nested
nested-Within f r n h inner = elim (Bool-cases (ltb max_depth (r.depth + 1))) [
  | inl deep ↦ rw (deep) tt
  | inr shallow ↦ rw (shallow) (
      Ensures-bind (Within (r.depth + 1) n) (Within r.depth n)
        (f (record r { depth = r.depth + 1 })) _ (inner (ground (arith, shallow)))
        (λ s there. (omega (arith, there.0), there.1)))
]

-- Each arm, where the values inside a container are skipped one depth further in.
module _ (inner : Reader → Skipped) (r : Reader) (n : ℕ) (h : length r.rest ≤ suc n)
    (below : r.depth < max_depth → Skips (r.depth + 1) inner) where
  skip_all-Within :
      (k : ℕ) (f : Reader → Skipped) (s : Reader)
      → Within r.depth n s
      → (r.depth < max_depth → Skips (r.depth + 1) f)
      → Ensures (Within r.depth n) (nested (repeat k f) s)
  skip_all-Within k f s here skips =
      let shallow : s.depth < max_depth → Skips (s.depth + 1) f =
        subst (λ d. d < max_depth → Skips (d + 1) f) (sym here.0) skips in
      subst (λ d. Ensures (Within d n) (nested (repeat k f) s)) here.0
        (nested-Within (repeat k f) s n here.1 (λ room.
          repeat-Within (s.depth + 1) f (shallow room) k (record s { depth = s.depth + 1 }) n
            (refl, here.1)))

  skip_form-Within : (form : Form) → Ensures (Within r.depth n) (skip_form inner form r)
  unfolding skip_form
  skip_form-Within single = first (Within r.depth n) r n _ h (λ x here. here)
  skip_form-Within (fixed k) = skip_fixed-Within r n h k
  skip_form-Within (ext width) = skip_ext-Within r n h width
  skip_form-Within str =
      Ensures-bind (After r.depth n) (Within r.depth n) (read_str r) _ (read_str-After r n h)
        (λ x here. here)
  skip_form-Within bin =
      Ensures-bind (After r.depth n) (Within r.depth n) (read_bin r) _ (read_bin-After r n h)
        (λ x here. here)
  skip_form-Within array =
      Ensures-bind (After r.depth n) (Within r.depth n) (read_array r) _ (read_array-After r n h)
        (λ x here. skip_all-Within x.0 inner x.1 here below)
  skip_form-Within map_form =
      Ensures-bind (After r.depth n) (Within r.depth n) (read_map r) _ (read_map-After r n h)
        (λ x here.
          skip_all-Within x.0 (twice inner) x.1 here
            (λ room. twice-Skips (r.depth + 1) inner (below room)))
  skip_form-Within reserved = tt

skip_within-Skips :
    (levels d : ℕ) → d ≤ max_depth → max_depth + 1 ≤ levels + d → Skips d (skip_within levels)
unfolding skip_within
skip_within-Skips zero d low enough r n same h = absurd (omega arith)
skip_within-Skips (suc levels) d low enough r n same h = start r.rest (λ room.
    skip_within-Skips levels (r.depth + 1) (omega (arith, room)) (omega (arith, same, enough)))
  where
    start :
        (t : Bytes)
        → (r.depth < max_depth → Skips (r.depth + 1) (skip_within levels))
        → Ensures
            (Within d n)
            (elim t [ [] ↦ err truncated | b ∷ u ↦ skip_form (skip_within levels) (form_of b) r ])
    start [] below = tt
    start (b ∷ u) below =
        subst (λ d. Ensures (Within d n) (skip_form (skip_within levels) (form_of b) r)) same
          (skip_form-Within (skip_within levels) r n h below (form_of b))

-- From a depth within the limit, `skip` ends on every input: it never runs out of the model's fuel.
pub skip-ne-stuck : (r : Reader) → r.depth ≤ max_depth → skip r ≢ stuck
unfolding skip
skip-ne-stuck r low =
    Ensures-ne-stuck (Within r.depth (length r.rest)) (skip_within skip_fuel r)
      (skip_within-Skips skip_fuel r.depth low (omega arith) r (length r.rest) refl (omega arith))

skip_bytes :
    (t : Bytes) (d : ℕ) (s : Reader)
    → d ≤ max_depth
    → skip (record { rest = t; depth = d }) ≡ ok s
    → (s.depth ≡ d) × (length s.rest < length t)
unfolding skip skip_within
skip_bytes [] d s low h = cc
skip_bytes (b ∷ u) d s low h =
    let r : Reader = record { rest = b ∷ u; depth = d } in
    let (same, less) =
      Ensures-ok (Within d (length u)) (skip_within skip_fuel r) s
        (skip_within-Skips skip_fuel d low (omega arith) r (length u) refl (omega arith)) h in
    (same, omega (arith, less))

-- Where `skip` succeeds it has taken a byte at least, and the depth is as before.
pub skip-advances :
    (r s : Reader)
    → r.depth ≤ max_depth
    → skip r ≡ ok s
    → (s.depth ≡ r.depth) × (length s.rest < length r.rest)
skip-advances r s low h = skip_bytes r.rest r.depth s low h
