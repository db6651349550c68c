-- ===== src/Codec/Weights/Parts.antt =====
-- src/codec.rs: each field of a weight is read back from its bytes.
use native.Mathlib.Numerals.{add-one}
use esbt_web.Base.{
  ℕ, zero, suc, ◌<◌, ◌≤◌, ◌≡◌, refl, ap₂, sym, subst, Bool-cases, ==_iff, inl, inr, false, not,
  ◌||◌, List, [], ◌∷◌, ◌++◌, length, length-append, take, drop, All, ltb, ◌==◌, u64_limit, arith,
}
use esbt_web.Base.Int.{ℤ, pos, nat_abs, eqb_ℤ, IsI64, eqb_ℤ→eq}
use esbt_web.Error.{ok}
use esbt_web.Limits.{ResourceLimits}
use esbt_web.Fraction
use esbt_web.Fraction.{Fraction}
use esbt_web.Fraction.Order.{IsFraction}
use esbt_web.Fraction.Mediant.{new_idem}
use esbt_web.Codec.Reader.{◌>>=◌, ◌>>◌, reject, remaining}
use esbt_web.Codec.Reader.Laws.{at}
use esbt_web.Codec.Reader.Reads.{
  Reads, Reads-pure, Reads-pure_eq, Reads-last, Reads-bind, Reads-reject,
}
use esbt_web.Codec.Varint.{uvarint, write_uvarint, ivarint, write_ivarint, uvarint_groups, bits}
use esbt_web.Codec.Varint.RoundTrip.{uvarint-write_uvarint}
use esbt_web.Codec.Varint.ZigZag.{ivarint-write_ivarint}
use esbt_web.Codec.Weights.{
  longest_common_prefix, write_digits, write_sn, check_path_budget, read_digits, read_fraction,
  read_sn,
}

pub Reads-uvarint : (v : ℕ) → v < u64_limit → Reads uvarint (write_uvarint v) v
Reads-uvarint v h = record { reads = λ o rest fits. uvarint-write_uvarint v rest o h (omega arith) }

pub Reads-ivarint : (v : ℤ) → IsI64 v → Reads ivarint (write_ivarint v) v
Reads-ivarint v h = record { reads = λ o rest fits. ivarint-write_ivarint v rest o h (omega arith) }

-- A positive fraction in lowest terms.
fraction_parts :
    (m n : ℕ)
    → 0 < m
    → 0 < n
    → m ≤ 0x8000_0000
    → n ≤ 0x8000_0000
    → Fraction.new (pos m) (pos n) ≡ record { p = pos m; q = pos n }
    → Reads read_fraction (write_uvarint m ++ write_uvarint n) (record { p = pos m; q = pos n })
unfolding read_fraction
fraction_parts m n hm hn bm bn reduced =
    let in_range : ((m == 0)
          || (n == 0)
          || ltb 0x7fff_ffff_ffff_ffff m
          || ltb 0x7fff_ffff_ffff_ffff n)
        ≡ false =
      ground arith in
    let in_lowest_terms : not
          (Fraction.eqb (Fraction.new (pos m) (pos n)) (record { p = pos m; q = pos n }))
        ≡ false =
      rw reduced (ground arith) in
    Reads-bind _ _ (write_uvarint m) (write_uvarint n) (Reads-uvarint m (omega arith)) (
      Reads-last (write_uvarint n) (
        Reads-bind _ _ (write_uvarint n) [] (Reads-uvarint n (omega arith)) (
          Reads-reject _ _ in_range
            (Reads-reject _ _ in_lowest_terms (Reads-pure_eq _ _ reduced)))))

pub Reads-read_fraction :
    (f : Fraction)
    → IsFraction f
    → 0 < nat_abs f.p
    → 0 < nat_abs f.q
    → nat_abs f.p ≤ 0x8000_0000
    → nat_abs f.q ≤ 0x8000_0000
    → Reads read_fraction (write_uvarint (bits f.p) ++ write_uvarint (bits f.q)) f
Reads-read_fraction f h hp hq mp mq =
    let m = nat_abs f.p in
    let n = nat_abs f.q in
    let same : ◌≡◌ {A = Fraction} (record { p = pos m; q = pos n }) f =
      λ i. record { p = sym h.num_nonneg i; q = sym h.den_nonneg i } in
    subst (λ g. Reads read_fraction (write_uvarint (bits g.p) ++ write_uvarint (bits g.q)) g) same
      (fraction_parts m n hp hq mp mq
        (subst (λ g. Fraction.new g.p g.q ≡ g) (sym same) (new_idem f h hp hq)))

-- The sequence number, implicit when it is zero.
pub Reads-read_sn : (sn : ℤ) → IsI64 sn → Reads (read_sn (not (eqb_ℤ sn (pos 0)))) (write_sn sn) sn
unfolding read_sn
Reads-read_sn sn h = elim (Bool-cases (eqb_ℤ sn (pos 0))) [
  | inl zero_sn ↦ rw zero_sn (Reads-pure_eq (pos 0) sn (sym (eqb_ℤ→eq sn (pos 0) zero_sn)))
  | inr other ↦ rw other (
      Reads-last (write_ivarint sn) (
        Reads-bind _ _ (write_ivarint sn) [] (Reads-ivarint sn h)
          (Reads-reject _ _ other (Reads-pure sn))))
]

abbrev pub AreDigits : List ℕ → Type 0
AreDigits l = All (λ d. d ≤ 0xffff_ffff) l

pub Reads-read_digits :
    (l : List ℕ) → AreDigits l → Reads (read_digits (length l)) (write_digits l) l
unfolding read_digits write_digits
Reads-read_digits [] h = Reads-pure []
Reads-read_digits (d ∷ l) h =
    let small : ltb 0xffff_ffff d ≡ false = ground (arith, h.0) in
    Reads-bind _ _ (write_uvarint d) (write_digits l) (Reads-uvarint d (omega (arith, h.0))) (
      Reads-reject _ _ small (
        Reads-last (write_digits l)
          (Reads-bind _ _ (write_digits l) [] (Reads-read_digits l h.1) (Reads-pure (d ∷ l)))))

write_uvarint_pos : (v : ℕ) → 0 < length (write_uvarint v)
unfolding write_uvarint uvarint_groups
write_uvarint_pos v = ground arith

length-write_digits : (l : List ℕ) → length l ≤ length (write_digits l)
unfolding write_digits
length-write_digits [] = omega arith
length-write_digits (d ∷ l) = omega (
  arith,
  length-append (write_uvarint d) (write_digits l),
  write_uvarint_pos d,
  length-write_digits l,
)

pub budget_ok :
    (limits : ResourceLimits) (total : ℕ) (l : List ℕ)
    → total ≤ limits.max_identifier_depth
    → (o : ℕ) (rest : List ℕ)
    → check_path_budget limits total (length l) (at o (write_digits l ++ rest))
      ≡ ok (tt, at o (write_digits l ++ rest))
unfolding check_path_budget ◌>>=◌ ◌>>◌ reject remaining
budget_ok limits total l h o rest =
    ground (arith, length-append (write_digits l) rest, length-write_digits l)

take-longest_common_prefix :
    (a b : List ℕ) → take (longest_common_prefix a b) a ≡ take (longest_common_prefix a b) b
unfolding longest_common_prefix
take-longest_common_prefix [] b = refl
take-longest_common_prefix (x ∷ a) [] = refl
take-longest_common_prefix (x ∷ a) (y ∷ b) = elim (Bool-cases (x == y)) [
  | inl same ↦
      rw (same, add-one)
        (ap₂ (λ (d : ℕ) (l : List ℕ). d ∷ l) ((==_iff x y).0 same) (take-longest_common_prefix a b))
  | inr other ↦ rw other
]

longest_common_prefix-le :
    (a b : List ℕ) → (longest_common_prefix a b ≤ length a) × (longest_common_prefix a b ≤ length b)
unfolding longest_common_prefix
longest_common_prefix-le [] b = omega arith
longest_common_prefix-le (x ∷ a) [] = omega arith
longest_common_prefix-le (x ∷ a) (y ∷ b) = ground (arith, longest_common_prefix-le a b)

AreDigits-drop : (n : ℕ) (l : List ℕ) → AreDigits l → AreDigits (drop n l)
AreDigits-drop zero l h = h
AreDigits-drop (suc n) [] h = tt
AreDigits-drop (suc n) (d ∷ l) h = AreDigits-drop n l h.1
