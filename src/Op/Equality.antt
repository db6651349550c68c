-- ===== src/Op/Equality.antt =====
-- src/op.rs: `==` of operations.
use mathlib.Core.Path.{◌≡◌, refl, ap}
use mathlib.Core.Bool.{Bool, true, false, ◌&&◌}
use esbt_web.Base.{◌==◌, arith}
use esbt_web.Base.Eq.{Eq, eqb_sound_ℕ}
use esbt_web.Weight.Equality.{weight_eq}
use esbt_web.Op.{Op, OpKind}

unfoldable pub eqb_kind : OpKind → OpKind → Bool
eqb_kind (OpKind.ins x) (OpKind.ins y) = x == y
eqb_kind (OpKind.ins x) OpKind.del = false
eqb_kind OpKind.del (OpKind.ins y) = false
eqb_kind OpKind.del OpKind.del = true

eqb_kind_sound : (k l : OpKind) → eqb_kind k l ≡ true → k ≡ l
unfolding eqb_kind
eqb_kind_sound (OpKind.ins x) (OpKind.ins y) h = ap OpKind.ins (eqb_sound_ℕ x y h)
eqb_kind_sound (OpKind.ins x) OpKind.del h = absurd (ground arith)
eqb_kind_sound OpKind.del (OpKind.ins y) h = absurd (ground arith)
eqb_kind_sound OpKind.del OpKind.del h = refl

eqb_kind_refl : (k : OpKind) → eqb_kind k k ≡ true
unfolding eqb_kind
eqb_kind_refl (OpKind.ins x) = ground arith
eqb_kind_refl OpKind.del = refl

unfoldable pub eqb : Op → Op → Bool
unfolding eqb_kind
eqb a b =
    eqb_kind a.kind b.kind
    && weight_eq.eqb a.weight b.weight
    && (a.counter == b.counter)
    && (a.origin == b.origin)
    && (a.seq == b.seq)

pub eqb_sound : (a b : Op) → eqb a b ≡ true → a ≡ b
unfolding eqb
eqb_sound a b h =
    let ek = eqb_kind_sound a.kind b.kind (ground arith) in
    let ew = weight_eq.eqb_sound a.weight b.weight (ground arith) in
    let ec : a.counter ≡ b.counter = ground arith in
    let eo : a.origin ≡ b.origin = ground arith in
    let es : a.seq ≡ b.seq = ground arith in
    λ i. record { kind = ek i; weight = ew i; counter = ec i; origin = eo i; seq = es i }

pub eqb_refl : (a : Op) → eqb a a ≡ true
unfolding eqb
eqb_refl a = ground (arith, eqb_kind_refl a.kind, weight_eq.eqb_refl a.weight)

instance abbrev pub op_eq : Eq Op
op_eq = record { eqb = eqb; eqb_sound = eqb_sound; eqb_refl = eqb_refl }
