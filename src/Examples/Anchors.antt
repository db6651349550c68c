-- ===== src/Examples/Anchors.antt =====
-- src/anchor.rs at a document of two atoms.
use esbt_web.Base.{ℕ, ◌≤◌, ◌≡◌, refl, min, some, List, [], ◌∷◌, arith}
use esbt_web.Error.{ok}
use esbt_web.Limits.{wire_default}
use esbt_web.Codec.Reader.{to_le}
use esbt_web.Codec.Varint.{write_uvarint, uvarint_groups}
use esbt_web.Codec.Weights.{
  is_default_path, write_digits, write_path, write_site, write_body, write_weight_parts,
  write_weight,
}
use esbt_web.Replica.{Replica, len}
use esbt_web.Anchor.{
  Affinity, AnchorTarget, Anchor, AnchorRange, at_index, resolve, resolve_range, target_bytes,
  encode_anchor, decode_anchor, is_canonical, start_anchor,
}
use esbt_web.Anchor.Resolve.{resolve-at_index, resolve_range-le}
use esbt_web.Anchor.RoundTrip.{decode_anchor-encode_anchor}
use esbt_web.Examples.Identifiers.{sample, half-IsFraction, sample-IsIdentifier}
use esbt_web.Examples.Documents.{two, two-IsDoc}
use esbt_web.Examples.Replicas.{empty}

abbrev filled : Replica
filled = record empty { doc = two }

resolve-at_index_example : resolve (at_index filled 1 Affinity.after) filled ≡ min 1 (len filled)
resolve-at_index_example = resolve-at_index filled 1 Affinity.after two-IsDoc

abbrev at_sample : Anchor
at_sample = record { target = AnchorTarget.item sample 2; affinity = Affinity.after }

abbrev range : AnchorRange
range = record { start = start_anchor; end = at_sample }

resolve_range-le_example :
    ((resolve_range range filled).0 ≤ (resolve_range range filled).1)
    × ((resolve_range range filled).1 ≤ len filled)
resolve_range-le_example = resolve_range-le range filled tt half-IsFraction two-IsDoc

abbrev bytes : List ℕ
bytes =
    2 ∷ 3 ∷ 6 ∷ 1 ∷ 2 ∷ 1 ∷ 5 ∷ 9 ∷ 0 ∷ 0 ∷ 0 ∷ 0 ∷ 0 ∷ 0 ∷ 0 ∷ 0 ∷ 0 ∷ 0 ∷ 0 ∷ 0 ∷ 0 ∷ 0 ∷ 0 ∷ 2
    ∷ 0 ∷ 0 ∷ 0 ∷ 0 ∷ 0 ∷ 0 ∷ 0 ∷ []

encoded : encode_anchor at_sample ≡ some bytes
unfolding encode_anchor target_bytes write_weight write_weight_parts write_body write_path
    write_digits write_site is_default_path write_uvarint uvarint_groups to_le
encoded = refl

decode_anchor-encode_anchor_example : decode_anchor wire_default bytes ≡ ok at_sample
unfolding is_canonical
decode_anchor-encode_anchor_example =
    decode_anchor-encode_anchor wire_default at_sample bytes refl
      (
        sample-IsIdentifier,
        (omega arith, omega arith),
        (omega arith, tt),
        omega arith,
        omega arith,
        omega arith,
        omega arith,
      )
      encoded (omega arith) (omega arith)
