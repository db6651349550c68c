-- ===== src/Codec/Varint.antt =====
-- src/codec.rs: canonical LEB128 integers, unsigned and zigzag-signed.
pub mod Canonical
pub mod RoundTrip
pub mod ZigZag
use esbt_web.Base.{
  ℕ, zero, suc, ◌+◌, ◌-◌, ◌*◌, ◌/◌, ◌%◌, ◌^◌, ◌<◌, Bool, true, false, ◌&&◌, List, [], ◌∷◌, ltb, leb,
  ◌==◌, if◌then◌else◌, u64_limit,
}
use esbt_web.Base.Int.{ℤ, pos, negsuc}
use esbt_web.Error.{ok, err, integer_overflow, malformed_encoding, non_canonical_encoding}
use esbt_web.Codec.Reader.{Reader, Read, ◌>>=◌, ◌>>◌, pure, fail, reject, read_le, u8}

-- One round of `Reader::uvarint` on a byte. Its group is the lower seven bits, and its top bit says
-- that more follow. The groups do not overlap, so `|=` is a sum.
unfoldable pub uvarint_body : (ℕ → Read ℕ) → ℕ → ℕ → ℕ → Read ℕ
uvarint_body more index value byte = do
  let group = byte % 128
  reject ((index == 9) && ltb 1 group) integer_overflow
  let value' = value + group * 2 ^ (index * 7)
  if byte / 128 == 0
      then reject (ltb 0 index && (group == 0)) non_canonical_encoding >> pure value'
      else more value'

-- The loop, with `rounds` of the ten left.
unfoldable pub uvarint_loop : ℕ → ℕ → ℕ → Read ℕ
unfolding uvarint_body
uvarint_loop zero index value = fail malformed_encoding
uvarint_loop (suc rounds) index value =
    u8 >>= uvarint_body (uvarint_loop rounds (index + 1)) index value

unfoldable pub uvarint : Read ℕ
uvarint = uvarint_loop 10 0 0

-- `write_uvarint`: what it appends for a value, with `rounds` groups at most. A `u64` has ten.
unfoldable pub uvarint_groups : ℕ → ℕ → List ℕ
uvarint_groups zero value = []
uvarint_groups (suc rounds) value =
    let rest = uvarint_groups rounds (value / 128) in
    if value / 128 == 0 then (value % 128) ∷ [] else (value % 128 + 128) ∷ rest

unfoldable pub write_uvarint : ℕ → List ℕ
write_uvarint value = uvarint_groups 10 value

-- `uvarint_len`, with nine divisions at most.
uvarint_len_loop : ℕ → ℕ → ℕ
uvarint_len_loop zero value = 1
uvarint_len_loop (suc rounds) value =
    let rest = uvarint_len_loop rounds (value / 128) in if leb 128 value then rest + 1 else 1

unfoldable pub uvarint_len : ℕ → ℕ
unfolding uvarint_len_loop
uvarint_len value = uvarint_len_loop 9 value

-- The bits of an `i64`, and the `i64` of 64 bits.
abbrev pub bits : ℤ → ℕ
bits (pos n) = n
bits (negsuc n) = u64_limit - 1 - n

abbrev pub from_bits : ℕ → ℤ
from_bits b = if ltb b 0x8000_0000_0000_0000 then pos b else negsuc (u64_limit - 1 - b)

-- `x ^ mask`, where every bit of the mask is the sign bit.
abbrev xor_sign : ℕ → Bool → ℕ
xor_sign x true = u64_limit - 1 - x
xor_sign x false = x

-- `(value << 1) ^ (value >> 63)`: the arithmetic shift by 63 fills the word with the sign bit.
unfoldable pub zigzag : ℤ → ℕ
zigzag value = xor_sign (bits value * 2 % u64_limit) (leb 0x8000_0000_0000_0000 (bits value))

-- `(value >> 1) ^ -(value & 1)`: the negated lowest bit fills the word too.
unfoldable pub unzigzag : ℕ → ℤ
unzigzag value = from_bits (xor_sign (value / 2) (value % 2 == 1))

unfoldable pub ivarint : Read ℤ
ivarint = do value ← uvarint; pure (unzigzag value)

unfoldable pub write_ivarint : ℤ → List ℕ
write_ivarint value = write_uvarint (zigzag value)
