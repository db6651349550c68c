-- ===== src/Weight/Validate.antt =====
-- src/weight.rs: what `validate_document_identifier` admits.
use esbt_web.Base.{
  ℕ, ◌<◌, ◌≤◌, ◌≡◌, ◌↔◌, refl, ap, sym, subst, ◌∙◌, true, false, Option, none, some, length, arith,
}
use esbt_web.Base.Int.{ℤ, pos, negsuc, nat_abs, ltb_ℤ, eqb_ℤ→eq, eqb_ℤ_refl}
use esbt_web.Error.{ok}
use esbt_web.Fraction
use esbt_web.Fraction.{Fraction}
use esbt_web.Fraction.Order.{IsFraction}
use esbt_web.Fraction.Mediant.{new-IsFraction, new_idem}
use esbt_web.Weight.{Weight, validate_document_identifier, exceeds}

abbrev pub WithinDepth : Option ℕ → ℕ → Type 0
WithinDepth none n = Unit
WithinDepth (some maximum) n = n ≤ maximum

-- A document identifier: a nonzero site, a positive fraction in lowest terms below the ceiling, and
-- a path of a length between 1 and the limit.
pub record IsIdentifier (max_depth : Option ℕ) (w : Weight) : Type 0 where
  pub site_nonzero : 0 < w.site
  pub fraction : IsFraction w.f
  pub num_pos : 0 < nat_abs w.f.p
  pub den_pos : 0 < nat_abs w.f.q
  pub num_max : nat_abs w.f.p ≤ 0x8000_0000
  pub den_max : nat_abs w.f.q ≤ 0x8000_0000
  pub path_nonempty : 0 < length w.sc
  pub depth : WithinDepth max_depth (length w.sc)

eqb→eq : (f g : Fraction) → Fraction.eqb f g ≡ true → f ≡ g
eqb→eq f g h =
    let ep = eqb_ℤ→eq f.p g.p (ground arith) in
    let eq = eqb_ℤ→eq f.q g.q (ground arith) in λ i. record { p = ep i; q = eq i }

eqb_refl : (f : Fraction) → Fraction.eqb f f ≡ true
eqb_refl f = ground (arith, eqb_ℤ_refl f.p, eqb_ℤ_refl f.q)

pos_of_ltb : (a : ℤ) → ltb_ℤ (pos 0) a ≡ true → (a ≡ pos (nat_abs a)) × (0 < nat_abs a)
pos_of_ltb (pos n) h = (refl, ground arith)
pos_of_ltb (negsuc n) h = ground arith

reduced-IsFraction :
    (f : Fraction)
    → ltb_ℤ (pos 0) f.p ≡ true
    → ltb_ℤ (pos 0) f.q ≡ true
    → Fraction.eqb (Fraction.new f.p f.q) f ≡ true
    → IsFraction f
reduced-IsFraction f hp hq h =
    let (ep, pp) = pos_of_ltb f.p hp in
    let (eq, pq) = pos_of_ltb f.q hq in
    let e : Fraction.new (pos (nat_abs f.p)) (pos (nat_abs f.q)) ≡ f =
      ap (λ x. Fraction.new x (pos (nat_abs f.q))) (sym ep)
      ∙ ap (λ y. Fraction.new f.p y) (sym eq)
      ∙ eqb→eq _ f h in
    subst IsFraction e (new-IsFraction (nat_abs f.p) (nat_abs f.q) pp pq).0

not_exceeds : (max_depth : Option ℕ) (n : ℕ) → exceeds max_depth n ≡ false → WithinDepth max_depth n
not_exceeds none n h = tt
not_exceeds (some maximum) n h = ground arith

within-exceeds :
    (max_depth : Option ℕ) (n : ℕ) → WithinDepth max_depth n → exceeds max_depth n ≡ false
within-exceeds none n h = refl
within-exceeds (some maximum) n h = ground arith

validate-ok :
    (max_depth : Option ℕ) (w : Weight)
    → validate_document_identifier max_depth w ≡ ok tt
    → IsIdentifier max_depth w
unfolding validate_document_identifier
validate-ok max_depth w h = record {
  site_nonzero = ground arith;
  fraction = reduced-IsFraction w.f (ground arith) (ground arith) (ground arith);
  num_pos = ground arith;
  den_pos = ground arith;
  num_max = ground arith;
  den_max = ground arith;
  path_nonempty = ground arith;
  depth = not_exceeds max_depth (length w.sc) (ground arith);
}

ok-validate :
    (max_depth : Option ℕ) (w : Weight)
    → IsIdentifier max_depth w
    → validate_document_identifier max_depth w ≡ ok tt
unfolding validate_document_identifier
ok-validate max_depth w h =
    let reduced = new_idem w.f h.fraction h.num_pos h.den_pos in
    let same : Fraction.eqb (Fraction.new w.f.p w.f.q) w.f ≡ true = rw reduced (eqb_refl w.f) in
    ground (
      arith,
      same,
      within-exceeds max_depth (length w.sc) h.depth,
      h.site_nonzero,
      h.fraction.num_nonneg,
      h.fraction.den_nonneg,
      h.num_pos,
      h.den_pos,
      h.num_max,
      h.den_max,
      h.path_nonempty,
    )

-- `validate_document_identifier` accepts a weight exactly if its site is nonzero, its fraction is
-- in lowest terms with numerator and denominator between 1 and 2^31, and its path is not empty and
-- within the depth limit, if there is one.
pub validate_document_identifier_iff :
    (max_depth : Option ℕ) (w : Weight)
    → (validate_document_identifier max_depth w ≡ ok tt) ↔ IsIdentifier max_depth w
validate_document_identifier_iff max_depth w = (validate-ok max_depth w, ok-validate max_depth w)
