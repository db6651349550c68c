-- ===== src/Op.antt =====
-- src/op.rs: operations of the wire.
pub mod Validate
pub mod Equality
use esbt_web.Base.{
  ℕ, ◌≡◌, refl, Bool, true, false, not, ◌&&◌, ◌||◌, Option, none, some, ◌==◌, if◌then◌else◌,
}
use esbt_web.Error.{Result, ok, err, ◌>>◌, invalid_operation}
use esbt_web.Weight.{Weight, validate_document_identifier}

pub data OpKind : Type 0 where
  ins : ℕ → OpKind
  del : OpKind

pub record Op : Type 0 where
  pub kind : OpKind
  pub weight : Weight
  pub counter : ℕ
  pub origin : ℕ
  pub seq : ℕ

abbrev pub is_ins : Op → Bool
is_ins op = elim op.kind [ OpKind.ins unit ↦ true | OpKind.del ↦ false ]

-- `Op::validate`.
unfoldable pub validate : Option ℕ → Op → Result (Unit {0})
validate max_identifier_depth op = do
  if (op.origin == 0) || (op.seq == 0) || (op.counter == 0) then err invalid_operation else ok tt
  validate_document_identifier max_identifier_depth op.weight
  if is_ins op && not (op.origin == op.weight.site) then err invalid_operation else ok tt
