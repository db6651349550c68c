-- ===== src/Codec/Reader.antt =====
-- src/codec.rs, `Reader`: a cursor in a byte string. The record holds the offset and `bytes[offset..]`.
pub mod Laws
pub mod Reads
use esbt_web.Base.{
  ℕ, zero, suc, ◌+◌, ◌*◌, ◌/◌, ◌%◌, ◌<◌, Bool, true, false, List, [], ◌∷◌, length, take, drop, ltb,
  leb, ◌==◌, if◌then◌else◌, u64_limit,
}
use esbt_web.Error.{
  Result, ok, err, ErrorCode, integer_overflow, malformed_encoding, non_canonical_encoding,
}

pub record Reader : Type 0 where
  pub offset : ℕ
  pub unread : List ℕ

-- A read: it fails, or gives a value and the reader behind it.
abbrev pub Read : Type 0 → Type 0
Read A = Reader → Result (A × Reader)

infixl 5 ◌>>=◌ ◌>>◌
unfoldable pub ◌>>=◌ : {A B : Type 0} → Read A → (A → Read B) → Read B
◌>>=◌ m f r = elim (m r) [ ok (a, r') ↦ f a r' | err e ↦ err e ]

unfoldable pub ◌>>◌ : {B : Type 0} → Read (Unit {0}) → Read B → Read B
unfolding ◌>>=◌
m >> k = m >>= λ _. k

unfoldable pub pure : {A : Type 0} → A → Read A
pure a r = ok (a, r)

unfoldable pub fail : {A : Type 0} → ErrorCode → Read A
fail e r = err e

-- `if test { return Err(…) }`.
unfoldable pub reject : Bool → ErrorCode → Read (Unit {0})
reject true e r = err e
reject false e r = ok (tt, r)

abbrev pub start : List ℕ → Reader
start bytes = record { offset = 0; unread = bytes }

-- `Reader::take`.
unfoldable pub take_bytes : ℕ → Read (List ℕ)
take_bytes n r =
    if leb u64_limit (r.offset + n)
    then err integer_overflow
    else if ltb (length r.unread) n
    then err malformed_encoding
    else ok (take n r.unread, record { offset = r.offset + n; unread = drop n r.unread })

-- `from_le_bytes` and `to_le_bytes`, the latter of `k` bytes.
unfoldable pub from_le : List ℕ → ℕ
from_le [] = 0
from_le (b ∷ bs) = b + 256 * from_le bs

unfoldable pub to_le : ℕ → ℕ → List ℕ
to_le zero v = []
to_le (suc k) v = (v % 256) ∷ to_le k (v / 256)

unfoldable pub read_le : ℕ → Read ℕ
read_le k = do bytes ← take_bytes k; pure (from_le bytes)

-- `Reader::u8`, `u16`, `u32`, `u64` and `u128`.
abbrev pub u8 : Read ℕ
u8 = read_le 1

abbrev pub u16 : Read ℕ
u16 = read_le 2

abbrev pub u32 : Read ℕ
u32 = read_le 4

abbrev pub u64 : Read ℕ
u64 = read_le 8

abbrev pub u128 : Read ℕ
u128 = read_le 16

-- `Reader::remaining` and `Reader::is_finished`.
unfoldable pub remaining : Read ℕ
remaining r = ok (length r.unread, r)

unfoldable pub is_finished : Read Bool
is_finished r = ok (length r.unread == 0, r)

-- `if !reader.is_finished() { return Err(…) }` at the end of a decoder.
abbrev pub whole : {A : Type 0} → Result (A × Reader) → Result A
whole (err e) = err e
whole (ok (a, r)) = if length r.unread == 0 then ok a else err non_canonical_encoding
