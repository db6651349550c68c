-- ===== src/Codec/Varint/ZigZag.antt =====
-- src/codec.rs: the signed code is a bijection between `i64` and `u64`.
use esbt_web.Base.{ℕ, ◌+◌, ◌<◌, ◌≡◌, u64_limit, List, ◌++◌, length, ◌∙◌, ap, arith}
use esbt_web.Base.Int.{ℤ, pos, negsuc, IsI64}
use esbt_web.Error.{ok}
use esbt_web.Codec.Reader.{pure}
use esbt_web.Codec.Reader.Laws.{at, bind-ok}
use esbt_web.Codec.Varint.{zigzag, unzigzag, uvarint, write_uvarint, ivarint, write_ivarint}
use esbt_web.Codec.Varint.RoundTrip.{uvarint-write_uvarint}

-- The code of a signed number: twice its size, and the sign in the lowest bit.
zigzag_parts : (value : ℤ) → IsI64 value → zigzag value < u64_limit
unfolding zigzag
zigzag_parts (pos n) h = ground arith
zigzag_parts (negsuc n) h = ground arith

unzigzag-zigzag : (value : ℤ) → IsI64 value → unzigzag (zigzag value) ≡ value
unfolding zigzag unzigzag
unzigzag-zigzag (pos n) h = ground arith
unzigzag-zigzag (negsuc n) h = ground arith

zigzag-unzigzag : (b : ℕ) → b < u64_limit → zigzag (unzigzag b) ≡ b
unfolding zigzag unzigzag
zigzag-unzigzag b h = ground arith

unzigzag-IsI64 : (b : ℕ) → b < u64_limit → IsI64 (unzigzag b)
unfolding unzigzag
unzigzag-IsI64 b h = ground arith

-- `zigzag` maps the `i64` values one to one onto the `u64` values, and `unzigzag` is its inverse.
pub zigzag_bijection :
    (value : ℤ) (b : ℕ)
    → IsI64 value
    → b < u64_limit
    → (zigzag value < u64_limit)
      × (unzigzag (zigzag value) ≡ value)
      × IsI64 (unzigzag b)
      × (zigzag (unzigzag b) ≡ b)
zigzag_bijection value b h k =
    (zigzag_parts value h, unzigzag-zigzag value h, unzigzag-IsI64 b k, zigzag-unzigzag b k)

-- An `i64` is read back from its canonical bytes, whatever follows them.
pub ivarint-write_ivarint :
    (v : ℤ) (rest : List ℕ) (o : ℕ)
    → IsI64 v
    → o + 10 < u64_limit
    → ivarint (at o (write_ivarint v ++ rest)) ≡ ok (v, at (o + length (write_ivarint v)) rest)
unfolding ivarint write_ivarint pure
ivarint-write_ivarint v rest o h fits =
    bind-ok uvarint (λ b. pure (unzigzag b)) (at o (write_uvarint (zigzag v) ++ rest)) (zigzag v) _
      (uvarint-write_uvarint (zigzag v) rest o (zigzag_parts v h) fits)
    ∙ ap (λ a. ok (a, at (o + length (write_uvarint (zigzag v))) rest)) (unzigzag-zigzag v h)
