-- ===== src/Weight.antt =====
-- src/weight.rs: identifiers and their total order. A `SiteId` is a number below 2^128, a digit of
-- the sequence path one below 2^32.
pub mod Order
pub mod Validate
pub mod Equality
use esbt_web.Base.{
  ℕ, zero, suc, ◌<◌, ◌≤◌, compare, Ordering, ◌≡◌, refl, Bool, true, false, not, ◌&&◌, ◌||◌, Option,
  none, some, List, [], ◌∷◌, length, ltb, ◌==◌, if◌then◌else◌,
}
use esbt_web.Base.Int.{ℤ, pos, compare_ℤ, ltb_ℤ}
use esbt_web.Base.Order.{then_with, is_lt}
use esbt_web.Error.{Result, ok, err, invalid_operation, identifier_too_deep}
use esbt_web.Fraction
use esbt_web.Fraction.{Fraction}

pub record Weight : Type 0 where
  pub f : Fraction
  pub sn : ℤ
  pub sc : List ℕ
  pub site : ℕ

-- `Weight::EMPTY_SITE`.
abbrev pub empty_site : ℕ
empty_site = 0

abbrev pub or_zero : List ℕ → List ℕ
or_zero [] = 0 ∷ []
or_zero (d ∷ ds) = d ∷ ds

-- `Weight::new`: an empty path becomes `[0]`.
abbrev pub new : Fraction → ℤ → List ℕ → ℕ → Weight
new f sn sc site = record { f = f; sn = sn; sc = or_zero sc; site = site }

abbrev pub begin : Weight
begin = new Fraction.begin (pos 0) (0 ∷ []) empty_site

abbrev pub end : Weight
end = new Fraction.end (pos 0) (0 ∷ []) empty_site

abbrev pub root : Weight
root = new Fraction.one (pos 0) (0 ∷ []) empty_site

-- `sc_cmp`: digit by digit up to the shorter length, and then by length.
unfoldable pub sc_cmp : List ℕ → List ℕ → Ordering
sc_cmp [] [] = Ordering.eq
sc_cmp [] (y ∷ ys) = Ordering.lt
sc_cmp (x ∷ xs) [] = Ordering.gt
sc_cmp (x ∷ xs) (y ∷ ys) = then_with (compare x y) (sc_cmp xs ys)

-- `Ord::cmp` of weights, and `<`.
unfoldable pub cmp : Weight → Weight → Ordering
cmp a b =
    then_with (Fraction.cmp_rat a.f b.f)
      (then_with (compare_ℤ a.sn b.sn) (then_with (sc_cmp a.sc b.sc) (compare a.site b.site)))

abbrev pub lt : Weight → Weight → Bool
lt a b = is_lt (cmp a b)

-- `DMAX_HARD_CEILING` of src/allocator.rs.
abbrev pub dmax_hard_ceiling : ℤ
dmax_hard_ceiling = pos 0x8000_0000

abbrev exceeds : Option ℕ → ℕ → Bool
exceeds none n = false
exceeds (some maximum) n = ltb maximum n

-- `Weight::validate_document_identifier`.
unfoldable pub validate_document_identifier : Option ℕ → Weight → Result (Unit {0})
validate_document_identifier max_depth w =
    if w.site == empty_site
    then err invalid_operation
    else if not (ltb_ℤ (pos 0) w.f.p) || not (ltb_ℤ (pos 0) w.f.q)
    then err invalid_operation
    else if not (Fraction.eqb (Fraction.new w.f.p w.f.q) w.f)
    then err invalid_operation
    else if ltb_ℤ dmax_hard_ceiling w.f.p || ltb_ℤ dmax_hard_ceiling w.f.q
    then err invalid_operation
    else if length w.sc == 0
    then err invalid_operation
    else if exceeds max_depth (length w.sc)
    then err identifier_too_deep
    else ok tt
