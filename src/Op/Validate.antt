-- ===== src/Op/Validate.antt =====
-- src/op.rs: what `Op::validate` admits.
use esbt_web.Base.{ℕ, ◌<◌, ◌≡◌, ◌↔◌, true, inl, inr, Option, arith}
use esbt_web.Error.{ok, Result-cases}
use esbt_web.Weight.{validate_document_identifier}
use esbt_web.Weight.Validate.{IsIdentifier, validate_document_identifier_iff}
use esbt_web.Op.{Op, validate, is_ins}

-- An insertion's origin owns its identifier.
abbrev pub Owns : Op → Type 0
Owns op = is_ins op ≡ true → op.origin ≡ op.weight.site

pub record IsOperation (max_depth : Option ℕ) (op : Op) : Type 0 where
  pub origin_nonzero : 0 < op.origin
  pub seq_nonzero : 0 < op.seq
  pub counter_nonzero : 0 < op.counter
  pub identifier : IsIdentifier max_depth op.weight
  pub owner : Owns op

validate-ok : (d : Option ℕ) (op : Op) → validate d op ≡ ok tt → IsOperation d op
unfolding validate
validate-ok d op h = elim (Result-cases (validate_document_identifier d op.weight)) [
  | inl (e, bad) ↦ absurd (ground (arith, bad))
  | inr (u, good) ↦ record {
    origin_nonzero = ground (arith, good);
    seq_nonzero = ground (arith, good);
    counter_nonzero = ground (arith, good);
    identifier = (validate_document_identifier_iff d op.weight).0 good;
    owner = λ i. ground (arith, good);
  }
]

ok-validate : (d : Option ℕ) (op : Op) → IsOperation d op → validate d op ≡ ok tt
unfolding validate
ok-validate d op h =
    let good = (validate_document_identifier_iff d op.weight).1 h.identifier in
    ground (arith, good, h.origin_nonzero, h.seq_nonzero, h.counter_nonzero, h.owner)

-- `Op::validate` accepts exactly the operations whose identity is nonzero, whose weight is a
-- document identifier, and whose origin owns the weight where they insert.
pub validate-IsOperation_iff : (d : Option ℕ) (op : Op) → (validate d op ≡ ok tt) ↔ IsOperation d op
validate-IsOperation_iff d op = (validate-ok d op, ok-validate d op)
