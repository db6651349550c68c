-- ===== src/Clock/Payload/RoundTrip.antt =====
-- src/clock.rs: a well-formed version is read back from its payload.
use mathlib.Core.List.{append-nil}
use esbt_web.Base.{
  ℕ, ◌+◌, ◌*◌, ◌^◌, ◌<◌, ◌≤◌, ◌≡◌, ap, sym, false, ◌&&◌, ◌||◌, Option, none, some, List, [], ◌∷◌,
  ◌++◌, length, length-append, ltb, leb, ◌==◌, u64_limit, arith,
}
use esbt_web.Base.OrdSet.{Above, Above-weaken}
use esbt_web.Base.OrdMap.{Keyed}
use esbt_web.Error.{ok}
use esbt_web.Limits.{ResourceLimits}
use esbt_web.Codec.Reader.{◌>>=◌, reject, remaining, start, to_le}
use esbt_web.Codec.Reader.Laws.{at, length-to_le}
use esbt_web.Codec.Reader.Reads.{
  Reads, Reads-pure, Reads-pure_eq, Reads-last, Reads-peek, Reads-bind, Reads-reject, Reads-read_le,
}
use esbt_web.Clock.{SiteVersion, Version, is_next}
use esbt_web.Clock.Canonical.{AreSites, sparse_total, IsWellFormed}
use esbt_web.Clock.Payload.{
  write_receipts, write_sites, encode_payload, check_room, read_receipts, reaches, read_sites,
  read_version, decode_payload,
}

length-write_receipts : (l : List ℕ) → length (write_receipts l) ≡ 8 * length l
unfolding write_receipts
length-write_receipts [] = omega arith
length-write_receipts (q ∷ l) =
    omega (
      arith,
      length-append (to_le 8 q) (write_receipts l),
      length-to_le 8 q,
      length-write_receipts l,
    )

length-write_sites : (m : List (ℕ × SiteVersion)) → 28 * length m ≤ length (write_sites m)
unfolding write_sites
length-write_sites [] = omega arith
length-write_sites ((k, s) ∷ m) =
    let receipts = write_receipts s.seen_after ++ write_sites m in
    let counted = to_le 4 (length s.seen_after) ++ receipts in
    omega (
      arith,
      length-append (to_le 16 k) (to_le 8 s.contiguous ++ counted),
      length-append (to_le 8 s.contiguous) counted,
      length-append (to_le 4 (length s.seen_after)) receipts,
      length-append (write_receipts s.seen_after) (write_sites m),
      length-to_le 16 k,
      length-to_le 8 s.contiguous,
      length-to_le 4 (length s.seen_after),
      length-write_sites m,
    )

room_for_receipts :
    (count : ℕ) (ys : List ℕ)
    → 8 * count ≤ length ys
    → (o : ℕ) (rest : List ℕ) → check_room count 8 (at o (ys ++ rest)) ≡ ok (tt, at o (ys ++ rest))
unfolding check_room ◌>>=◌ reject remaining
room_for_receipts count ys h o rest = ground (arith, length-append ys rest)

room_for_sites :
    (count : ℕ) (ys : List ℕ)
    → 28 * count ≤ length ys
    → (o : ℕ) (rest : List ℕ) → check_room count 28 (at o (ys ++ rest)) ≡ ok (tt, at o (ys ++ rest))
unfolding check_room ◌>>=◌ reject remaining
room_for_sites count ys h o rest = ground (arith, length-append ys rest)

Reads-read_receipts :
    (c previous : ℕ) (l : List ℕ)
    → Above previous l
    → Above (c + 1) l
    → Reads (read_receipts c previous (length l)) (write_receipts l) l
unfolding read_receipts write_receipts
Reads-read_receipts c previous [] a b = Reads-pure []
Reads-read_receipts c previous (q ∷ l) a b =
    let next : (leb q previous || is_next c q) ≡ false = ground (arith, a.0, b.0) in
    Reads-bind _ _ (to_le 8 q) (write_receipts l)
      (Reads-read_le 8 q (omega arith) (omega (arith, a.1)))
      (Reads-reject _ _ next (
        Reads-last (write_receipts l) (
          Reads-bind _ _ (write_receipts l) []
            (Reads-read_receipts c q l a.2 (Above-weaken q (c + 1) l (omega (arith, b.0)) a.2))
            (Reads-pure (q ∷ l)))))

abbrev pub AreU128 : List (ℕ × SiteVersion) → Type 0
AreU128 [] = Unit
AreU128 ((k, s) ∷ m) = (k < 2 ^ 128) × (length s.seen_after < 2 ^ 32) × AreU128 m

-- The last site that was read, as a bound.
abbrev bound : Option ℕ → ℕ
bound none = 0
bound (some previous) = previous

beyond :
    (previous : Option ℕ) (k : ℕ) → bound previous < k → ((k == 0) || reaches previous k) ≡ false
beyond none k h = ground arith
beyond (some previous) k h = ground arith

Reads-read_sites :
    (limits : ResourceLimits) (previous : Option ℕ) (total : ℕ) (m : List (ℕ × SiteVersion))
    → Keyed (bound previous) m
    → AreSites m
    → AreU128 m
    → total + sparse_total m ≤ limits.max_sparse_receipts
    → total + sparse_total m < u64_limit
    → Reads
        (read_sites limits previous total (length m))
        (write_sites m)
        (m, total + sparse_total m)
unfolding read_sites write_sites
Reads-read_sites limits previous total [] keyed sites wide few fits =
    Reads-pure_eq _ _ (ap (λ (n : ℕ). ([], n)) (omega arith))
Reads-read_sites limits previous total ((k, s) ∷ m) keyed sites wide few fits =
    let n = length s.seen_after in
    let after_previous : ((k == 0) || reaches previous k) ≡ false = beyond previous k keyed.0 in
    let occupied : ((s.contiguous == 0) && (n == 0)) ≡ false = ground (arith, sites.0.2) in
    let no_overflow : leb u64_limit (total + n) ≡ false = ground arith in
    let within : ltb limits.max_sparse_receipts (total + n) ≡ false = ground arith in
    let receipts = write_receipts s.seen_after ++ write_sites m in
    let counted = to_le 4 n ++ receipts in
    Reads-bind _ _ (to_le 16 k) (to_le 8 s.contiguous ++ counted)
      (Reads-read_le 16 k (omega arith) wide.0)
      (Reads-reject _ _ after_previous (
        Reads-bind _ _ (to_le 8 s.contiguous) counted
          (Reads-read_le 8 s.contiguous (omega arith) (omega (arith, sites.0.1)))
          (Reads-bind _ _ (to_le 4 n) receipts
            (Reads-read_le 4 n (omega arith) (omega (arith, wide.1)))
            (Reads-reject _ _ occupied (
              Reads-reject _ _ no_overflow (
                Reads-reject _ _ within (
                  Reads-peek (check_room n 8) _
                    (room_for_receipts n receipts (
                      omega (
                        arith,
                        length-write_receipts s.seen_after,
                        length-append (write_receipts s.seen_after) (write_sites m),
                      )))
                    (Reads-bind _ _ (write_receipts s.seen_after) (write_sites m)
                      (Reads-read_receipts s.contiguous s.contiguous s.seen_after
                        (Above-weaken (s.contiguous + 1) s.contiguous s.seen_after (omega arith)
                          sites.0.0)
                        sites.0.0)
                      (Reads-last (write_sites m) (
                        Reads-bind _ _ (write_sites m) []
                          (Reads-read_sites limits (some k) (total + n) m keyed.1 sites.1 wide.2
                            (omega arith) (omega arith))
                          (Reads-pure_eq _ _
                            (ap (λ (i : ℕ). ((k, s) ∷ m, i)) (omega arith)))))))))))))

-- What fits the fields of the payload, whose counts are `u32`, and the decoder's resource policy.
pub record Fits (limits : ResourceLimits) (v : Version) : Type 0 where
  pub fields : AreU128 v.sites
  pub site_count : length v.sites < 2 ^ 32
  pub sites_within : length v.sites ≤ limits.max_version_sites
  pub receipts_within : v.sparse_count ≤ limits.max_sparse_receipts
  pub receipts_u64 : v.sparse_count < u64_limit
  pub message_within : length (encode_payload v) ≤ limits.max_message_bytes
  pub message_u64 : length (encode_payload v) + 16 < u64_limit

Reads-read_version :
    (limits : ResourceLimits) (v : Version)
    → IsWellFormed v
    → Fits limits v
    → Reads (read_version limits) (encode_payload v) v
unfolding read_version encode_payload
Reads-read_version limits v h fits =
    let n = length v.sites in
    let total = h.counted in
    let sum : 0 + sparse_total v.sites ≡ v.sparse_count = omega (arith, total) in
    let within : ltb limits.max_version_sites n ≡ false = ground (arith, fits.sites_within) in
    Reads-bind _ _ (to_le 4 n) (write_sites v.sites)
      (Reads-read_le 4 n (omega arith) (omega (arith, fits.site_count)))
      (Reads-reject _ _ within (
        Reads-peek (check_room n 28) _
          (room_for_sites n (write_sites v.sites) (length-write_sites v.sites))
          (Reads-last (write_sites v.sites) (
            Reads-bind _ _ (write_sites v.sites) []
              (Reads-read_sites limits none 0 v.sites h.ascending h.entries fits.fields
                (omega (arith, total, fits.receipts_within))
                (omega (arith, total, fits.receipts_u64)))
              (Reads-pure_eq _ _ (λ i. record { sites = v.sites; sparse_count = sum i }))))))

-- If a version is well-formed (sites nonzero and ascending, each with a canonical entry that is
-- not empty and within `u64`, the cached count right), fits the widths of the fields and the
-- limits of the policy on sites, sparse receipts and bytes, and `usize` holds the length of its
-- payload plus 16, then it is what its payload decodes to.
pub decode_payload-encode_payload :
    (limits : ResourceLimits) (v : Version)
    → IsWellFormed v
    → Fits limits v
    → decode_payload limits (encode_payload v) ≡ ok v
unfolding decode_payload
decode_payload-encode_payload limits v h fits =
    let small : ltb limits.max_message_bytes (length (encode_payload v)) ≡ false =
      ground (arith, fits.message_within) in
    let run = (Reads-read_version limits v h fits).reads 0 [] (omega (arith, fits.message_u64)) in
    let same : start (encode_payload v) ≡ at 0 (encode_payload v ++ []) =
      ap (at 0) (sym (append-nil (encode_payload v))) in
    rw (small, same, run)
