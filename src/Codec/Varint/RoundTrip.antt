-- ===== src/Codec/Varint/RoundTrip.antt =====
-- src/codec.rs: a canonical integer is read back, and only canonical integers are read.
use native.Mathlib.Nat.{pow-suc, div-add-mod}
use native.Mathlib.Numerals.{towards_suc}
use esbt_web.Base.{
  ℕ, zero, suc, ◌+◌, ◌-◌, ◌*◌, ◌/◌, ◌%◌, ◌^◌, ◌<◌, ◌≤◌, ◌≡◌, refl, ap, ap₂, ◌∙◌, Bool-cases, inl,
  inr, ◌⊎◌, List, ◌∷◌, ◌++◌, length, ◌==◌, u64_limit, arith,
}
use esbt_web.Error.{ok}
use esbt_web.Codec.Reader.{◌>>=◌, ◌>>◌, pure, reject, to_le, u8}
use esbt_web.Codec.Reader.Laws.{at, bind-ok, read_le-to_le}
use esbt_web.Codec.Varint.{uvarint_body, uvarint_loop, uvarint, uvarint_groups, write_uvarint}

zero_or_more : (n : ℕ) → (n ≡ 0) ⊎ (0 < n)
zero_or_more n = omega arith

-- One byte at the front.
u8_front :
    (b : ℕ) (rest : List ℕ) (o : ℕ)
    → b < 256
    → o + 1 < u64_limit
    → u8 (at o (b ∷ rest)) ≡ ok (b, at (o + 1) rest)
unfolding to_le
u8_front b rest o h fits =
    let e : b % 256 ≡ b = omega arith in rw e at (read_le-to_le 1 b rest o (omega arith) fits)

pub shift_group : (i : ℕ) → 2 ^ ((i + 1) * 7) ≡ 128 * 2 ^ (i * 7)
shift_group i =
    let e : (i + 1) * 7 ≡ i * 7 + 7 = omega arith in rw e (simp towards_suc (omega arith))

-- One round on a last byte, and on a byte that says that more follow.
last_byte :
    (n i value g : ℕ) (rest : List ℕ) (o : ℕ)
    → g < 128
    → (i ≡ 9 → g ≤ 1)
    → (0 < i → 0 < g)
    → o + 1 < u64_limit
    → uvarint_loop (suc n) i value (at o (g ∷ rest)) ≡ ok (value + g * 2 ^ (i * 7), at (o + 1) rest)
unfolding uvarint_loop ◌>>=◌ ◌>>◌ pure reject
last_byte n i value g rest o h top minimal fits =
    bind-ok u8 (uvarint_body (uvarint_loop n (i + 1)) i value) (at o (g ∷ rest)) g (at (o + 1) rest)
      (u8_front g rest o (omega arith) fits)
    ∙ ground arith

inner_byte :
    (n i value g : ℕ) (rest : List ℕ) (o : ℕ)
    → g < 128
    → i < 9
    → o + 1 < u64_limit
    → uvarint_loop (suc n) i value (at o ((g + 128) ∷ rest))
      ≡ uvarint_loop n (i + 1) (value + g * 2 ^ (i * 7)) (at (o + 1) rest)
unfolding uvarint_loop ◌>>=◌ ◌>>◌ pure reject
inner_byte n i value g rest o h top fits =
    let low : (g + 128) % 128 ≡ g = omega arith in
    bind-ok u8 (uvarint_body (uvarint_loop n (i + 1)) i value) (at o ((g + 128) ∷ rest)) (g + 128)
      (at (o + 1) rest) (u8_front (g + 128) rest o (omega arith) fits)
    ∙ rw low (ground arith)

split_group : (v i : ℕ) → v * 2 ^ (i * 7) ≡ v % 128 * 2 ^ (i * 7) + v / 128 * 2 ^ ((i + 1) * 7)
split_group v i = omega (
  arith,
  ap (λ (t : ℕ). t * 2 ^ (i * 7)) (div-add-mod v 128),
  ap (λ (t : ℕ). v / 128 * t) (shift_group i),
)

-- In the tenth round one bit is left.
at_top : (i v : ℕ) → v * 2 ^ (i * 7) < u64_limit → i ≡ 9 → v ≤ 1
at_top i v h e = omega (arith, ap (λ (t : ℕ). v * 2 ^ (t * 7)) e)

not_top : (i v n : ℕ) → suc n + i ≡ 10 → v * 2 ^ (i * 7) < u64_limit → 128 ≤ v → i < 9
not_top i v n e h big = elim (zero_or_more (9 - i)) [
  | inl at9 ↦ absurd (omega (arith, at_top i v h (omega arith)))
  | inr below ↦ omega arith
]

-- `v` is what is still to be read, and counts from bit `i * 7` on.
uvarint_loop-groups :
    (n i value v : ℕ) (rest : List ℕ) (o : ℕ)
    → n + i ≡ 10
    → v < 128 ^ n
    → v * 2 ^ (i * 7) < u64_limit
    → (0 < i → 0 < v)
    → o + n < u64_limit
    → uvarint_loop n i value (at o (uvarint_groups n v ++ rest))
      ≡ ok (value + v * 2 ^ (i * 7), at (o + length (uvarint_groups n v)) rest)
unfolding uvarint_groups
uvarint_loop-groups zero i value v rest o e h top minimal fits = absurd (omega (arith, minimal))
uvarint_loop-groups (suc n) i value v rest o e h top minimal fits =
    elim (Bool-cases (v / 128 == 0)) [
      | inl done ↦
          let small : v % 128 ≡ v = ground (arith, done) in
          rw (done, small)
            (last_byte n i value v rest o (ground (arith, done)) (at_top i v top) minimal
              (omega arith))
      | inr more ↦
          let big : 128 ≤ v = ground (arith, more) in
          let split : v * 2 ^ (i * 7) ≡ v % 128 * 2 ^ (i * 7) + v / 128 * 2 ^ ((i + 1) * 7) =
            split_group v i in
          rw more (
            inner_byte n i value (v % 128) (uvarint_groups n (v / 128) ++ rest) o (omega arith)
              (not_top i v n e top big) (omega arith)
            ∙ uvarint_loop-groups n (i + 1) (value + v % 128 * 2 ^ (i * 7)) (v / 128) rest (o + 1)
                (omega arith) (omega (arith, pow-suc 128 n)) (omega (arith, split))
                (λ _. omega arith) (omega arith)
            ∙ ap₂ (λ (a b : ℕ). ok (a, at b rest)) (omega (arith, split)) (omega arith))
    ]

-- A `u64` is read back from its canonical bytes, whatever follows them.
pub uvarint-write_uvarint :
    (v : ℕ) (rest : List ℕ) (o : ℕ)
    → v < u64_limit
    → o + 10 < u64_limit
    → uvarint (at o (write_uvarint v ++ rest)) ≡ ok (v, at (o + length (write_uvarint v)) rest)
unfolding uvarint write_uvarint
uvarint-write_uvarint v rest o h fits =
    uvarint_loop-groups 10 0 0 v rest o refl (omega arith) (omega arith) (λ p. absurd (omega arith))
      fits
    ∙ ap (λ (a : ℕ). ok (a, at (o + length (uvarint_groups 10 v)) rest)) (omega arith)
