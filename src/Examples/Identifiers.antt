-- ===== src/Examples/Identifiers.antt =====
-- src/fraction.rs, src/weight.rs and src/newseq.rs at concrete identifiers.
use esbt_web.Base.{Ordering, ◌≡◌, ◌↔◌, refl, false, some, [], ◌∷◌, arith}
use esbt_web.Base.Int.{pos}
use esbt_web.Error.{ok}
use esbt_web.Fraction
use esbt_web.Fraction.{Fraction, gcd_loop, gcd, reduce, cmp_rat}
use esbt_web.Fraction.Order.{IsFraction}
use esbt_web.Fraction.Mediant.{mediant_between}
use esbt_web.Weight
use esbt_web.Weight.{Weight, sc_cmp, validate_document_identifier}
use esbt_web.Weight.Validate.{IsIdentifier, validate_document_identifier_iff}
use esbt_web.NewSeq.{AllocationStrategy, newseq_unbounded}
use esbt_web.NewSeq.Path.{zero_extension, newseq_unbounded_between}

abbrev pub third : Fraction
third = record { p = pos 1; q = pos 3 }

abbrev pub half : Fraction
half = record { p = pos 1; q = pos 2 }

pub third-IsFraction : IsFraction third
unfolding gcd gcd_loop
third-IsFraction = record {
  num_nonneg = refl;
  den_nonneg = refl;
  nonzero = omega arith;
  coprime = refl;
}

pub half-IsFraction : IsFraction half
unfolding gcd gcd_loop
half-IsFraction = record {
  num_nonneg = refl;
  den_nonneg = refl;
  nonzero = omega arith;
  coprime = refl;
}

third-below-half : cmp_rat third half ≡ Ordering.lt
unfolding cmp_rat
third-below-half = refl

mediant_between_example :
    IsFraction (Fraction.mediant third half)
    × (cmp_rat third (Fraction.mediant third half) ≡ Ordering.lt)
    × (cmp_rat (Fraction.mediant third half) half ≡ Ordering.lt)
mediant_between_example =
    mediant_between third half third-IsFraction half-IsFraction (omega arith, omega arith)
      third-below-half

abbrev pub sample : Weight
sample = Weight.new half (pos 0) (5 ∷ []) 9

sample_eq : Weight.cmp sample sample ≡ Ordering.eq
unfolding Weight.cmp cmp_rat sc_cmp
sample_eq = refl

pub sample-IsIdentifier : IsIdentifier (some 1024) sample
sample-IsIdentifier = record {
  site_nonzero = omega arith;
  fraction = half-IsFraction;
  num_pos = omega arith;
  den_pos = omega arith;
  num_max = omega arith;
  den_max = omega arith;
  path_nonempty = omega arith;
  depth = omega arith;
}

validate_document_identifier_iff_example :
    (validate_document_identifier (some 1024) sample ≡ ok tt) ↔ IsIdentifier (some 1024) sample
validate_document_identifier_iff_example = validate_document_identifier_iff (some 1024) sample

paths_ordered : sc_cmp (1 ∷ []) (2 ∷ []) ≡ Ordering.lt
unfolding sc_cmp
paths_ordered = refl

newseq_unbounded_between_example :
    (sc_cmp (1 ∷ []) (newseq_unbounded (1 ∷ []) (2 ∷ []) 10 AllocationStrategy.midpoint)
      ≡ Ordering.lt)
    × ((sc_cmp (newseq_unbounded (1 ∷ []) (2 ∷ []) 10 AllocationStrategy.midpoint) (2 ∷ [])
          ≡ Ordering.lt)
        ↔ (zero_extension (1 ∷ []) (2 ∷ []) ≡ false))
newseq_unbounded_between_example =
    newseq_unbounded_between (1 ∷ []) (2 ∷ []) 10 AllocationStrategy.midpoint (omega arith, tt)
      (omega arith) paths_ordered
