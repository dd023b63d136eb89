-- ===== src/Dns/Records/RoundTrip.antt =====
-- `read_rdata` reads back what `write_rdata` wrote, whatever stands around it.
use resolvd.Prelude.{
  ℕ, zero, suc, ◌+◌, ◌%◌, ◌^◌, ◌<◌, ◌≤◌, ◌≡◌, refl, sym, ap, subst, List, [], ◌∷◌, ◌++◌, length,
  length-append, take, drop, All, Bytes, StandsAt, StandsAt-append, StandsAt-behind, ==_iff,
  StandsAt-start, slice-at, ok, to_be, from_be-to_be_2, from_be-to_be_4, from_be-to_be_16, min,
  arith,
}
use mathlib.Core.List.{append_assoc}
use resolvd.Dns.Name.{Name, wire_len}
use resolvd.Dns.Name.Valid.{IsName}
use resolvd.Dns.Wire.{write}
use resolvd.Dns.Wire.RoundTrip.{read-write, length-write, wire_len_bounds}
use resolvd.Dns.Types.{
  RData, a, aaaa, cname, ptr, ns, soa, mx, srv, txt, opt, unknown, t_soa, t_mx, t_srv,
}
use resolvd.Dns.Records.{
  write_strings, write_rdata, name_at, be_at, name_to_end, read_strings, soa_numbers, read_soa,
  read_mx, read_srv, read_typed, read_rdata,
}
use resolvd.Dns.Records.Valid.{IsRData}

module _ (msg : Bytes) where
  name_at-write :
      (end p : ℕ) (n : Name) (t : Bytes)
      → IsName n
      → StandsAt msg p (write n ++ t)
      → p + wire_len n ≤ end
      → name_at msg end p ≡ ok (n, p + wire_len n)
  unfolding name_at
  name_at-write end p n t valid at fits = ground (arith, read-write msg p n t valid at)

  name_to_end-write :
      (end p : ℕ) (n : Name) (t : Bytes)
      → IsName n
      → StandsAt msg p (write n ++ t)
      → p + wire_len n ≡ end
      → name_to_end msg end p ≡ ok n
  unfolding name_to_end
  name_to_end-write end p n t valid at fits =
      ground (arith, name_at-write end p n t valid at (omega arith))

  be_at-2 :
      (p v : ℕ) (t : Bytes) → v < 2 ^ 16 → StandsAt msg p (to_be 2 v ++ t) → be_at 2 msg p ≡ ok v
  unfolding be_at
  be_at-2 p v t h at = rw (slice-at msg p (to_be 2 v) t at) (ap ok (from_be-to_be_2 v h))

  be_at-4 :
      (p v : ℕ) (t : Bytes) → v < 2 ^ 32 → StandsAt msg p (to_be 4 v ++ t) → be_at 4 msg p ≡ ok v
  unfolding be_at
  be_at-4 p v t h at = rw (slice-at msg p (to_be 4 v) t at) (ap ok (from_be-to_be_4 v h))

drop-length : (s t : Bytes) → drop (length s) (s ++ t) ≡ t
drop-length [] t = refl
drop-length (x ∷ s) t = drop-length s t

take-length : (s : Bytes) → take (length s) s ≡ s
take-length [] = refl
take-length (x ∷ s) = ap (λ r. x ∷ r) (take-length s)

read_strings-write :
    (fuel : ℕ) (ss : List Bytes)
    → All (λ s. length s ≤ 255) ss
    → length (write_strings ss) ≤ fuel
    → read_strings fuel (write_strings ss) ≡ ok ss
unfolding read_strings write_strings
read_strings-write fuel [] h f = refl
read_strings-write zero (s ∷ ss) h f = absurd (omega arith)
read_strings-write (suc fuel) (s ∷ ss) h f =
    let n : min (length s) 255 ≡ length s = omega arith in
    let byte : length s % 2 ^ 8 ≡ length s = omega arith in
    let left : length (write_strings ss) ≤ fuel =
      omega (arith, length-append (take (min (length s) 255) s) (write_strings ss)) in
    rw (
      n,
      byte,
      take-length s,
      slice-at (s ++ write_strings ss) 0 s (write_strings ss) (StandsAt-start _),
      drop-length s (write_strings ss),
      read_strings-write fuel ss h.1 left,
    )

module _ (msg : Bytes) where
  soa_numbers-write :
      (mname rname : Name) (serial refresh retry expire minimum p : ℕ) (t : Bytes)
      → IsRData t_soa (soa mname rname serial refresh retry expire minimum)
      → StandsAt msg p (
          to_be 4 serial
          ++ (to_be 4 refresh ++ (to_be 4 retry ++ (to_be 4 expire ++ (to_be 4 minimum ++ t)))))
      → soa_numbers msg mname rname p ≡ ok (soa mname rname serial refresh retry expire minimum)
  unfolding soa_numbers
  soa_numbers-write mname rname serial refresh retry expire minimum p t
        (_, vm, vr, hs, hr, ht, he, hm) at =
      let at₄ = StandsAt-behind msg p (p + 4) (to_be 4 serial) _ refl at in
      let at₈ = StandsAt-behind msg (p + 4) (p + 8) (to_be 4 refresh) _ (omega arith) at₄ in
      let at₁₂ = StandsAt-behind msg (p + 8) (p + 12) (to_be 4 retry) _ (omega arith) at₈ in
      let at₁₆ = StandsAt-behind msg (p + 12) (p + 16) (to_be 4 expire) _ (omega arith) at₁₂ in
      rw (
        be_at-4 msg p serial _ hs at,
        be_at-4 msg (p + 4) refresh _ hr at₄,
        be_at-4 msg (p + 8) retry _ ht at₈,
        be_at-4 msg (p + 12) expire _ he at₁₂,
        be_at-4 msg (p + 16) minimum t hm at₁₆,
      )

  read_soa-write :
      (mname rname : Name) (serial refresh retry expire minimum start : ℕ) (t : Bytes)
      → IsRData t_soa (soa mname rname serial refresh retry expire minimum)
      → StandsAt msg start (write_rdata (soa mname rname serial refresh retry expire minimum) ++ t)
      → read_soa msg
          (start + length (write_rdata (soa mname rname serial refresh retry expire minimum)))
          start
        ≡ ok (soa mname rname serial refresh retry expire minimum)
  unfolding write_rdata read_soa
  read_soa-write mname rname serial refresh retry expire minimum start t
        (_, vm, vr, hs, hr, ht, he, hm) at =
      let tail : Bytes =
        to_be 4 serial
        ++ (to_be 4 refresh ++ (to_be 4 retry ++ (to_be 4 expire ++ to_be 4 minimum))) in
      let p : ℕ = start + wire_len mname in
      let q : ℕ = p + wire_len rname in
      let end : ℕ = start + length (write mname ++ (write rname ++ tail)) in
      let size : end ≡ q + 20 = omega (
        arith,
        length-append (write mname) (write rname ++ tail),
        length-append (write rname) tail,
        length-write mname,
        length-write rname,
      ) in
      let at₀ : StandsAt msg start (write mname ++ (write rname ++ (tail ++ t))) =
        rw
          (
            ← append_assoc (write rname) tail t,
            ← append_assoc (write mname) (write rname ++ tail) t,
          )
          at in
      let at₁ : StandsAt msg p (write rname ++ (tail ++ t)) =
        StandsAt-behind msg start p (write mname) _ (omega (arith, length-write mname)) at₀ in
      let at₂ : StandsAt msg q (tail ++ t) =
        StandsAt-behind msg p q (write rname) _ (omega (arith, length-write rname)) at₁ in
      rw
        (
          name_at-write msg end start mname _ vm at₀ (omega arith),
          name_at-write msg end p rname _ vr at₁ (omega arith),
          (==_iff (q + 20) end).1 (sym size),
        )
        (soa_numbers-write mname rname serial refresh retry expire minimum q t
          (refl, vm, vr, hs, hr, ht, he, hm) at₂)

  read_mx-write :
      (preference : ℕ) (exchange : Name) (start : ℕ) (t : Bytes)
      → IsRData t_mx (mx preference exchange)
      → StandsAt msg start (write_rdata (mx preference exchange) ++ t)
      → read_mx msg
          (start + length (write_rdata (mx preference exchange)))
          start
          (length (write_rdata (mx preference exchange)))
        ≡ ok (mx preference exchange)
  unfolding write_rdata read_mx
  read_mx-write preference exchange start t (_, hp, valid) at =
      let name =
        name_to_end-write msg (start + length (to_be 2 preference ++ write exchange)) (start + 2)
          exchange t valid (StandsAt-append msg start (to_be 2 preference) at)
          (omega (arith, length-write exchange)) in
      let word = be_at-2 msg start preference (write exchange ++ t) hp at in
      ground (arith, name, word, length-write exchange, wire_len_bounds exchange valid)

  read_srv-write :
      (priority weight port : ℕ) (target : Name) (start : ℕ) (t : Bytes)
      → IsRData t_srv (srv priority weight port target)
      → StandsAt msg start (write_rdata (srv priority weight port target) ++ t)
      → read_srv msg
          (start + length (write_rdata (srv priority weight port target)))
          start
          (length (write_rdata (srv priority weight port target)))
        ≡ ok (srv priority weight port target)
  unfolding write_rdata read_srv
  read_srv-write priority weight port target start t (_, hp, hw, ho, valid) at =
      let at₂ = StandsAt-append msg start (to_be 2 priority) at in
      let at₄ = StandsAt-behind msg (start + 2) (start + 4) (to_be 2 weight) _ (omega arith) at₂ in
      let at₆ =
        StandsAt-behind msg (start + 4) (start + 6) (to_be 2 port) (write target ++ t) (omega arith)
          at₄ in
      let name =
        name_to_end-write msg
          (start + length (to_be 2 priority ++ (to_be 2 weight ++ (to_be 2 port ++ write target))))
          (start + 6) target t valid at₆ (omega (arith, length-write target)) in
      ground (
        arith,
        name,
        be_at-2 msg start priority _ hp at,
        be_at-2 msg (start + 2) weight _ hw at₂,
        be_at-2 msg (start + 4) port _ ho at₄,
        length-write target,
        wire_len_bounds target valid,
      )

  name_data :
      (d : RData) (n : Name) (start : ℕ) (t : Bytes)
      → write_rdata d ≡ write n
      → IsName n
      → StandsAt msg start (write_rdata d ++ t)
      → name_to_end msg (start + length (write_rdata d)) start ≡ ok n
  name_data d n start t e valid at =
      name_to_end-write msg (start + length (write_rdata d)) start n t valid
        (subst (λ b. StandsAt msg start (b ++ t)) e at) (omega (arith, ap length e, length-write n))

  -- The match on the type, by the data.
  read_typed-write :
      (rtype : ℕ) (d : RData) (start : ℕ) (t : Bytes)
      → IsRData rtype d
      → StandsAt msg start (write_rdata d ++ t)
      → read_typed msg rtype start (length (write_rdata d)) (write_rdata d) ≡ ok d
  unfolding read_typed
  read_typed-write rtype (a v) start t (e, h) at =
      rw e (unfold write_rdata in ap (λ n. ok (a n)) (from_be-to_be_4 v h))
  read_typed-write rtype (aaaa v) start t (e, h) at =
      rw e (unfold write_rdata in ap (λ n. ok (aaaa n)) (from_be-to_be_16 v h))
  read_typed-write rtype (cname n) start t (e, h) at =
      rw e (rw (name_data (cname n) n start t (unfold write_rdata in refl) h at))
  read_typed-write rtype (ptr n) start t (e, h) at =
      rw e (rw (name_data (ptr n) n start t (unfold write_rdata in refl) h at))
  read_typed-write rtype (ns n) start t (e, h) at =
      rw e (rw (name_data (ns n) n start t (unfold write_rdata in refl) h at))
  read_typed-write rtype (soa m r s f y x i) start t h at =
      rw h.0 (read_soa-write m r s f y x i start t (refl, h.1, h.2, h.3, h.4, h.5, h.6, h.7) at)
  read_typed-write rtype (mx p n) start t h at =
      rw h.0 (read_mx-write p n start t (refl, h.1, h.2) at)
  read_typed-write rtype (srv p w o n) start t h at =
      rw h.0 (read_srv-write p w o n start t (refl, h.1, h.2, h.3, h.4) at)
  read_typed-write rtype (txt ss) start t (e, h) at =
      rw e (
        unfold write_rdata in
        rw (read_strings-write (length (write_strings ss)) ss h (omega arith)))
  read_typed-write rtype (opt b) start t e at = rw e (unfold write_rdata in refl)
  read_typed-write rtype (unknown b) start t h at = unfold write_rdata in ground (arith, h)

  -- Where well-formed data of a type was written at `start`, `read_rdata` with that type and the
  -- data's length returns the data, whatever stands before and after it.
  pub read_rdata-write_rdata :
      (rtype start : ℕ) (d : RData) (t : Bytes)
      → IsRData rtype d
      → StandsAt msg start (write_rdata d ++ t)
      → read_rdata msg rtype start (length (write_rdata d)) ≡ ok d
  unfolding read_rdata
  read_rdata-write_rdata rtype start d t valid at =
      rw (slice-at msg start (write_rdata d) t at) (read_typed-write rtype d start t valid at)
