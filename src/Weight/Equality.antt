-- ===== src/Weight/Equality.antt =====
-- src/weight.rs: `==` of identifiers, which compares them field by field.
use mathlib.Core.Path.{◌≡◌}
use mathlib.Core.Bool.{Bool, true, ◌&&◌}
use esbt_web.Base.{◌==◌, arith}
use esbt_web.Base.Int.{eqb_ℤ, eqb_ℤ→eq, eqb_ℤ_refl}
use esbt_web.Base.Eq.{Eq, nat_eq, eqb_list, eqb_list_refl, list_eq}
use esbt_web.Weight.{Weight}

unfoldable pub eqb : Weight → Weight → Bool
eqb a b =
    eqb_ℤ a.f.p b.f.p
    && eqb_ℤ a.f.q b.f.q
    && eqb_ℤ a.sn b.sn
    && eqb_list a.sc b.sc
    && (a.site == b.site)

pub eqb_sound : (a b : Weight) → eqb a b ≡ true → a ≡ b
unfolding eqb
eqb_sound a b h =
    let ep = eqb_ℤ→eq a.f.p b.f.p (ground arith) in
    let eq = eqb_ℤ→eq a.f.q b.f.q (ground arith) in
    let es = eqb_ℤ→eq a.sn b.sn (ground arith) in
    let ec = list_eq.eqb_sound a.sc b.sc (ground arith) in
    let ed : a.site ≡ b.site = ground arith in
    λ i. record { f = record { p = ep i; q = eq i }; sn = es i; sc = ec i; site = ed i }

pub eqb_refl : (a : Weight) → eqb a a ≡ true
unfolding eqb
eqb_refl a = ground (arith, eqb_ℤ_refl a.f.p, eqb_ℤ_refl a.f.q, eqb_ℤ_refl a.sn, eqb_list_refl a.sc)

instance abbrev pub weight_eq : Eq Weight
weight_eq = record { eqb = eqb; eqb_sound = eqb_sound; eqb_refl = eqb_refl }
