-- ===== src/Clock/Payload.antt =====
-- src/clock.rs: the binary form of a `Version`.
pub mod RoundTrip
use esbt_web.Base.{
  ℕ, zero, suc, ◌+◌, ◌/◌, ◌≡◌, refl, Bool, true, false, ◌&&◌, ◌||◌, Option, none, some, List, [],
  ◌∷◌, ◌++◌, length, ltb, leb, ◌==◌, if◌then◌else◌, u64_limit,
}
use esbt_web.Error.{
  Result, ok, err, malformed_encoding, non_canonical_encoding, message_too_large,
  too_many_version_sites, too_many_sparse_receipts, integer_overflow,
}
use esbt_web.Limits.{ResourceLimits}
use esbt_web.Codec.Reader.{
  Reader, Read, ◌>>=◌, ◌>>◌, pure, reject, remaining, start, to_le, u32, u64, u128, whole,
}
use esbt_web.Clock.{SiteVersion, Version, is_next}

unfoldable pub write_receipts : List ℕ → List ℕ
write_receipts [] = []
write_receipts (seq ∷ l) = to_le 8 seq ++ write_receipts l

unfoldable pub write_sites : List (ℕ × SiteVersion) → List ℕ
unfolding write_receipts
write_sites [] = []
write_sites ((site, s) ∷ m) =
    to_le 16 site
    ++ (to_le 8 s.contiguous
        ++ (to_le 4 (length s.seen_after) ++ (write_receipts s.seen_after ++ write_sites m)))

-- `Version::encode_payload`. The counts are cast to `u32`.
unfoldable pub encode_payload : Version → List ℕ
unfolding write_sites
encode_payload v = to_le 4 (length v.sites) ++ write_sites v.sites

-- No more items than the bytes ahead can hold.
unfoldable pub check_room : ℕ → ℕ → Read (Unit {0})
check_room count item_bytes = do
  left ← remaining
  reject (ltb (left / item_bytes) count) malformed_encoding

-- The loop over the sparse receipts, which ascend: what the set has been given so far is in order.
unfoldable pub read_receipts : ℕ → ℕ → ℕ → Read (List ℕ)
read_receipts contiguous previous zero = pure []
read_receipts contiguous previous (suc n) = do
  seq ← u64
  reject (leb seq previous || is_next contiguous seq) non_canonical_encoding
  l ← read_receipts contiguous seq n
  pure (seq ∷ l)

abbrev pub reaches : Option ℕ → ℕ → Bool
reaches none site = false
reaches (some previous) site = leb site previous

-- The loop over the sites. They ascend, so that the site of a round is not among the earlier ones,
-- and the map's order is the reading order.
unfoldable pub read_sites : ResourceLimits → Option ℕ → ℕ → ℕ → Read (List (ℕ × SiteVersion) × ℕ)
unfolding check_room read_receipts
read_sites limits previous total zero = pure ([], total)
read_sites limits previous total (suc n) = do
  site ← u128
  reject ((site == 0) || reaches previous site) non_canonical_encoding
  contiguous ← u64
  sparse_count ← u32
  reject ((contiguous == 0) && (sparse_count == 0)) non_canonical_encoding
  reject (leb u64_limit (total + sparse_count)) integer_overflow
  reject (ltb limits.max_sparse_receipts (total + sparse_count)) too_many_sparse_receipts
  check_room sparse_count 8
  l ← read_receipts contiguous contiguous sparse_count
  rest ← read_sites limits (some site) (total + sparse_count) n
  pure ((site, record { contiguous = contiguous; seen_after = l }) ∷ rest.0, rest.1)

unfoldable pub read_version : ResourceLimits → Read Version
unfolding check_room read_sites
read_version limits = do
  site_count ← u32
  reject (ltb limits.max_version_sites site_count) too_many_version_sites
  check_room site_count 28
  found ← read_sites limits none 0 site_count
  pure (record { sites = found.0; sparse_count = found.1 })

-- `Version::decode_payload_with_limits`.
unfoldable pub decode_payload : ResourceLimits → List ℕ → Result Version
unfolding read_version
decode_payload limits bytes =
    if ltb limits.max_message_bytes (length bytes)
    then err message_too_large
    else whole (read_version limits (start bytes))
