-- ===== src/Codec/Varint/Canonical.antt =====
-- src/codec.rs: `uvarint` accepts nothing but the canonical bytes of a `u64`.
use native.Mathlib.Nat.{pow-suc}
use esbt_web.Base.{
  ℕ, zero, suc, ◌+◌, ◌*◌, ◌/◌, ◌%◌, ◌^◌, ◌<◌, ◌≤◌, ◌≡◌, refl, ap, ap₂, sym, subst, ◌∙◌, Bool-cases,
  inl, inr, true, false, List, [], ◌∷◌, ◌++◌, All, ◌==◌, u64_limit, arith,
}
use esbt_web.Error.{ok}
use esbt_web.Codec.Reader.{Reader, Read, ◌>>=◌, ◌>>◌, pure, fail, reject, to_le, u8}
use esbt_web.Codec.Reader.Laws.{IsByte, >>=-eq-ok, read_le_ok}
use esbt_web.Codec.Varint.{uvarint_body, uvarint_loop, uvarint, uvarint_groups, write_uvarint}
use esbt_web.Codec.Varint.RoundTrip.{shift_group}

-- What one round says of its byte: it is the last one, or more follow.
module _ (more : ℕ → Read ℕ) (i value byte x : ℕ) (r r' : Reader)
    (h : uvarint_body more i value byte r ≡ ok (x, r')) where
  last_round :
      (byte / 128 == 0) ≡ true
      → (i ≡ 9 → byte ≤ 1) × (0 < i → 0 < byte) × (x ≡ value + byte * 2 ^ (i * 7)) × (r ≡ r')
  unfolding uvarint_body ◌>>=◌ ◌>>◌ pure reject
  last_round e =
      let small : byte % 128 ≡ byte = ground (arith, e) in
      (
        ground (arith, e, small),
        ground (arith, e, small),
        ground (arith, e, small),
        ground (arith, e, small),
      )

  inner_round : (byte / 128 == 0) ≡ false → more (value + byte % 128 * 2 ^ (i * 7)) r ≡ ok (x, r')
  unfolding uvarint_body ◌>>=◌ ◌>>◌ pure reject
  inner_round e = ground (arith, e)

-- What a successful read of the remaining rounds gives.
record IsRead (n i value x : ℕ) (r r' : Reader) : Type 0 where
  number : ℕ
  value_eq : x ≡ value + number * 2 ^ (i * 7)
  bytes_eq : r.unread ≡ uvarint_groups n number ++ r'.unread
  minimal : 0 < i → 0 < number
  bounded : number * 128 < 2 * 128 ^ n
  rest_bytes : All IsByte r'.unread

groups_last : (n byte : ℕ) → byte < 128 → uvarint_groups (suc n) byte ≡ byte ∷ []
unfolding uvarint_groups
groups_last n byte h =
    let small : byte % 128 ≡ byte = omega arith in
    let done : (byte / 128 == 0) ≡ true = ground arith in rw (done, small)

groups_inner :
    (n byte m : ℕ)
    → 128 ≤ byte
    → byte < 256
    → 0 < m
    → uvarint_groups (suc n) (byte % 128 + 128 * m) ≡ byte ∷ uvarint_groups n m
unfolding uvarint_groups
groups_inner n byte m lo hi p =
    let high : (byte % 128 + 128 * m) / 128 ≡ m = omega arith in
    let low : (byte % 128 + 128 * m) % 128 + 128 ≡ byte = omega arith in
    let more : (m == 0) ≡ false = ground arith in rw (high, low, more)

to_le_one : (byte : ℕ) → byte < 256 → to_le 1 byte ≡ byte ∷ []
unfolding to_le
to_le_one byte h = ap (λ (b : ℕ). b ∷ []) (omega arith)

bound_last :
    (n i byte : ℕ) → suc n + i ≡ 10 → byte < 128 → (i ≡ 9 → byte ≤ 1) → byte * 128 < 2 * 128 ^ suc n
bound_last zero i byte e h top = omega (arith, top (omega arith), pow-suc 128 0)
bound_last (suc n) i byte e h top = omega (arith, pow-suc 128 n, pow-suc 128 (suc n), pow_pos n)
  where
    pow_pos : (k : ℕ) → 0 < 128 ^ k
    pow_pos zero = omega arith
    pow_pos (suc k) = omega (arith, pow-suc 128 k, pow_pos k)

bound_inner :
    (n g m : ℕ) → g < 128 → m * 128 < 2 * 128 ^ n → 0 < m → (g + 128 * m) * 128 < 2 * 128 ^ suc n
bound_inner zero g m h b p = absurd (omega arith)
bound_inner (suc n) g m h b p = omega (arith, pow-suc 128 n, pow-suc 128 (suc n))

joined_value :
    (byte m i value x : ℕ)
    → x ≡ value + byte % 128 * 2 ^ (i * 7) + m * 2 ^ ((i + 1) * 7)
    → x ≡ value + (byte % 128 + 128 * m) * 2 ^ (i * 7)
joined_value byte m i value x h = omega (arith, ap (λ (t : ℕ). m * t) (shift_group i))

module _ (n i value byte x : ℕ) (r r' r'' : Reader) (e : suc n + i ≡ 10) (small : byte < 256)
    (front : r.unread ≡ to_le 1 byte ++ r''.unread) (b' : All IsByte r''.unread)
    (rest : uvarint_body (uvarint_loop n (i + 1)) i value byte r'' ≡ ok (x, r')) where
  IsRead-last : (byte / 128 == 0) ≡ true → IsRead (suc n) i value x r r'
  IsRead-last done =
      let (top, minimal, value_eq, same) =
        last_round (uvarint_loop n (i + 1)) i value byte x r'' r' rest done in
      let low : byte < 128 = ground (arith, done) in
      record {
        number = byte;
        value_eq = value_eq;
        bytes_eq =
            front
            ∙ ap₂ (λ (l : List ℕ) (q : Reader). l ++ q.unread)
                (to_le_one byte small ∙ sym (groups_last n byte low)) same;
        minimal = minimal;
        bounded = bound_last n i byte e low top;
        rest_bytes = subst (λ (q : Reader). All IsByte q.unread) same b';
      }

  IsRead-inner :
      (byte / 128 == 0) ≡ false
      → IsRead n (i + 1) (value + byte % 128 * 2 ^ (i * 7)) x r'' r'
      → IsRead (suc n) i value x r r'
  IsRead-inner more next =
      let m = next.number in
      let p : 0 < m = next.minimal (omega arith) in
      let big : 128 ≤ byte = ground (arith, more) in
      record {
        number = byte % 128 + 128 * m;
        value_eq = joined_value byte m i value x next.value_eq;
        bytes_eq =
            front
            ∙ ap₂ ◌++◌ (to_le_one byte small) next.bytes_eq
            ∙ ap (λ (l : List ℕ). l ++ r'.unread) (sym (groups_inner n byte m big small p));
        minimal = λ _. omega arith;
        bounded = bound_inner n (byte % 128) m (omega arith) next.bounded p;
        rest_bytes = next.rest_bytes;
      }

uvarint_loop_ok :
    (n i value x : ℕ) (r r' : Reader)
    → n + i ≡ 10
    → All IsByte r.unread
    → uvarint_loop n i value r ≡ ok (x, r')
    → IsRead n i value x r r'
unfolding uvarint_loop fail
uvarint_loop_ok zero i value x r r' e b h = cc
uvarint_loop_ok (suc n) i value x r r' e b h =
    let (byte, r'', first, rest) =
      >>=-eq-ok u8 (uvarint_body (uvarint_loop n (i + 1)) i value) r x r' h in
    let (front, small, off, b') = read_le_ok 1 r r'' byte b first in
    elim (Bool-cases (byte / 128 == 0)) [
      | inl done ↦ IsRead-last n i value byte x r r' r'' e (omega (arith, small)) front b' rest done
      | inr more ↦
          IsRead-inner n i value byte x r r' r'' e (omega (arith, small)) front b' rest more (
            uvarint_loop_ok n (i + 1) (value + byte % 128 * 2 ^ (i * 7)) x r'' r' (omega arith) b'
              (inner_round (uvarint_loop n (i + 1)) i value byte x r'' r' rest more))
    ]

-- If the unread input are bytes and `uvarint` reads a number, then the number is a `u64`, what was
-- taken from the input is what `write_uvarint` writes for it, and the bytes behind that are left.
pub uvarint_canonical :
    (r r' : Reader) (v : ℕ)
    → All IsByte r.unread
    → uvarint r ≡ ok (v, r')
    → (v < u64_limit) × (r.unread ≡ write_uvarint v ++ r'.unread) × All IsByte r'.unread
unfolding uvarint write_uvarint
uvarint_canonical r r' v b h =
    let read = uvarint_loop_ok 10 0 0 v r r' refl b h in
    let same : v ≡ read.number = omega (arith, read.value_eq) in
    (
      omega (arith, same, read.bounded),
      read.bytes_eq ∙ ap (λ (k : ℕ). uvarint_groups 10 k ++ r'.unread) (sym same),
      read.rest_bytes,
    )
