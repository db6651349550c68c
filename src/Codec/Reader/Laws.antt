-- ===== src/Codec/Reader/Laws.antt =====
-- src/codec.rs: reading back what was written, and what a successful read says of the bytes.
use native.Mathlib.Nat.{pow-suc}
use esbt_web.Base.{
  ℕ, zero, suc, ◌+◌, ◌*◌, ◌/◌, ◌%◌, ◌^◌, ◌<◌, ◌≡◌, refl, ap, ap₂, subst, sym, ◌∙◌, Bool-cases, inl,
  inr, false, List, [], ◌∷◌, ◌++◌, length, length-append, take, drop, take-append, drop-append,
  take-append-drop, length-take_le, All, ltb, leb, u64_limit, arith,
}
use esbt_web.Error.{ok, Result-cases}
use esbt_web.Codec.Reader.{Reader, Read, take_bytes, from_le, to_le, read_le, ◌>>=◌, pure}

abbrev pub IsByte : ℕ → Type 0
IsByte b = b < 256

-- The reader at an offset, before the bytes that it has not read.
abbrev pub at : ℕ → List ℕ → Reader
at o l = record { offset = o; unread = l }

pub length-to_le : (k v : ℕ) → length (to_le k v) ≡ k
unfolding to_le
length-to_le zero v = refl
length-to_le (suc k) v = ap suc (length-to_le k (v / 256))

pub to_le-IsByte : (k v : ℕ) → All IsByte (to_le k v)
unfolding to_le
to_le-IsByte zero v = tt
to_le-IsByte (suc k) v = (omega arith, to_le-IsByte k (v / 256))

pub from_le-to_le : (k v : ℕ) → v < 256 ^ k → from_le (to_le k v) ≡ v
unfolding to_le from_le
from_le-to_le zero v h = omega arith
from_le-to_le (suc k) v h = omega (arith, from_le-to_le k (v / 256) (omega (arith, pow-suc 256 k)))

pub to_le-from_le : (l : List ℕ) → All IsByte l → to_le (length l) (from_le l) ≡ l
unfolding to_le from_le
to_le-from_le [] h = refl
to_le-from_le (b ∷ l) h =
    let low : (b + 256 * from_le l) % 256 ≡ b = omega (arith, h.0) in
    let high : (b + 256 * from_le l) / 256 ≡ from_le l = omega (arith, h.0) in
    rw (low, high) (ap (λ t. b ∷ t) (to_le-from_le l h.1))

pub from_le-lt : (l : List ℕ) → All IsByte l → from_le l < 256 ^ length l
unfolding from_le
from_le-lt [] h = omega arith
from_le-lt (b ∷ l) h = omega (arith, h.0, from_le-lt l h.1, pow-suc 256 (length l))

pub All-append_split : (xs ys : List ℕ) → All IsByte (xs ++ ys) → All IsByte xs × All IsByte ys
All-append_split [] ys h = (tt, h)
All-append_split (x ∷ xs) ys h = let (a, b) = All-append_split xs ys h.1 in ((h.0, a), b)

pub All-append : (xs ys : List ℕ) → All IsByte xs → All IsByte ys → All IsByte (xs ++ ys)
All-append [] ys a b = b
All-append (x ∷ xs) ys a b = (a.0, All-append xs ys a.1 b)

pub take_bytes-append :
    (xs rest : List ℕ) (o : ℕ)
    → o + length xs < u64_limit
    → take_bytes (length xs) (at o (xs ++ rest)) ≡ ok (xs, at (o + length xs) rest)
unfolding take_bytes
take_bytes-append xs rest o h =
    let fits : leb u64_limit (o + length xs) ≡ false = ground arith in
    let there : ltb (length (xs ++ rest)) (length xs) ≡ false =
      ground (arith, length-append xs rest) in
    rw (fits, there, take-append xs rest, drop-append xs rest)

read_le_of :
    (k : ℕ) (r : Reader) (xs : List ℕ) (r' : Reader)
    → take_bytes k r ≡ ok (xs, r')
    → read_le k r ≡ ok (from_le xs, r')
unfolding read_le ◌>>=◌ pure
read_le_of k r xs r' e = rw (e, ◌>>=◌)

-- `k` little-endian bytes are read back as the number.
pub read_le-to_le :
    (k v : ℕ) (rest : List ℕ) (o : ℕ)
    → v < 256 ^ k
    → o + k < u64_limit
    → read_le k (at o (to_le k v ++ rest)) ≡ ok (v, at (o + k) rest)
unfolding read_le
read_le-to_le k v rest o h fits =
    let e = length-to_le k v in
    let read = rw e at (take_bytes-append (to_le k v) rest o (omega (arith, e))) in
    read_le_of k _ (to_le k v) (at (o + k) rest) read ∙ rw (from_le-to_le k v h)

-- A read that succeeds hands its value on.
pub bind-ok :
    {A B : Type 0} (m : Read A) (f : A → Read B) (r : Reader) (a : A) (r' : Reader)
    → m r ≡ ok (a, r')
    → (m >>= f) r ≡ f a r'
unfolding ◌>>=◌
bind-ok m f r a r' e = rw (e, ◌>>=◌)

-- A chain that succeeds began with a read that did.
pub >>=-eq-ok :
    {A B : Type 0} (m : Read A) (f : A → Read B) (r : Reader) (b : B) (r' : Reader)
    → (m >>= f) r ≡ ok (b, r')
    → (a : A) × (r'' : Reader) × (m r ≡ ok (a, r'')) × (f a r'' ≡ ok (b, r'))
unfolding ◌>>=◌
>>=-eq-ok m f r b r' h = elim (Result-cases (m r)) [
  | inl (e, failed) ↦ ground (arith, failed)
  | inr ((a, r''), e) ↦ (a, r'', e, rw (e, ◌>>=◌) at h)
]

-- A successful read of `k` bytes: they stood at the front.
pub take_bytes_ok :
    (k : ℕ) (r r' : Reader) (xs : List ℕ)
    → take_bytes k r ≡ ok (xs, r')
    → (r.unread ≡ xs ++ r'.unread) × (length xs ≡ k) × (r'.offset ≡ r.offset + k)
unfolding take_bytes
take_bytes_ok k r r' xs h = elim (Bool-cases (leb u64_limit (r.offset + k))) [
  | inl big ↦ ground (arith, big)
  | inr fits ↦ elim (Bool-cases (ltb (length r.unread) k)) [
    | inl short ↦ ground (arith, fits, short)
    | inr there ↦
        let e : take k r.unread ≡ xs = ground (arith, fits, there) in
        let e' : drop k r.unread ≡ r'.unread = ground (arith, fits, there) in
        (
          sym (take-append-drop k r.unread) ∙ ap₂ ◌++◌ e e',
          ap length (sym e) ∙ length-take_le k r.unread (ground (arith, there)),
          ground (arith, fits, there),
        )
  ]
]

-- A successful read of a `k`-byte number: its little-endian bytes stood at the front.
pub read_le_ok :
    (k : ℕ) (r r' : Reader) (v : ℕ)
    → All IsByte r.unread
    → read_le k r ≡ ok (v, r')
    → (r.unread ≡ to_le k v ++ r'.unread)
      × (v < 256 ^ k)
      × (r'.offset ≡ r.offset + k)
      × All IsByte r'.unread
unfolding read_le ◌>>=◌ pure
read_le_ok k r r' v b h = elim (Result-cases (take_bytes k r)) [
  | inl (e, failed) ↦ ground (arith, failed)
  | inr ((xs, r''), e) ↦
      let (front, len, off) = take_bytes_ok k r r'' xs e in
      let ev : from_le xs ≡ v = ground (arith, e) in
      let er : r'' ≡ r' = ground (arith, e) in
      let bytes = All-append_split xs r''.unread (subst (All IsByte) front b) in
      let written : to_le k v ≡ xs = rw (← ev, ← len) (to_le-from_le xs bytes.0) in
      rw (← er, written) (front, rw (← ev, ← len) (from_le-lt xs bytes.0), off, bytes.1)
]
