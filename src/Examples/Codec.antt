-- ===== src/Examples/Codec.antt =====
-- src/codec.rs, src/wire.rs, src/limits.rs and src/config.rs at concrete inputs.
use esbt_web.Base.{
  ℕ, ◌+◌, ◌<◌, ◌≡◌, ◌≤◌, length, ◌↔◌, refl, none, some, List, [], ◌∷◌, ◌++◌, All, u64_limit, arith,
}
use esbt_web.Base.Int.{pos}
use esbt_web.Error.{ok}
use esbt_web.Limits.{wire_default}
use esbt_web.NewSeq.{AllocationStrategy}
use esbt_web.Config.{DocumentConfig}
use esbt_web.Codec.Reader.{◌>>=◌, ◌>>◌, pure, reject, take_bytes, from_le, to_le, read_le}
use esbt_web.Codec.Reader.Laws.{at, IsByte}
use esbt_web.Codec.Varint.{uvarint_body, uvarint_loop, uvarint, uvarint_groups, write_uvarint}
use esbt_web.Codec.Varint.Canonical.{uvarint_canonical}
use esbt_web.Codec.Weights.{
  is_default_path, write_digits, write_path, write_site, write_body, write_weight_parts,
  write_weight, read_weight,
}
use esbt_web.Codec.Weights.RoundTrip.{read_weight-write_weight}
use esbt_web.Wire.{ArtifactKind, encode, open_envelope}
use esbt_web.Wire.Envelope.{open_envelope_iff}
use esbt_web.Examples.Identifiers.{sample, sample-IsIdentifier}

read_300 : uvarint (at 0 (172 ∷ 2 ∷ 9 ∷ [])) ≡ ok (300, at 2 (9 ∷ []))
unfolding uvarint uvarint_loop uvarint_body ◌>>=◌ ◌>>◌ pure reject read_le take_bytes from_le
read_300 = refl

uvarint_canonical_example :
    (300 < u64_limit) × ((172 ∷ 2 ∷ 9 ∷ []) ≡ write_uvarint 300 ++ (9 ∷ [])) × All IsByte (9 ∷ [])
uvarint_canonical_example =
    uvarint_canonical (at 0 (172 ∷ 2 ∷ 9 ∷ [])) (at 2 (9 ∷ [])) 300
      (omega arith, (omega arith, (omega arith, tt))) read_300

sample_bytes : write_weight sample 9 ≡ some (2 ∷ 1 ∷ 2 ∷ 1 ∷ 5 ∷ [])
unfolding write_weight write_weight_parts write_body write_path write_digits write_site
    is_default_path write_uvarint uvarint_groups to_le
sample_bytes = refl

read_weight-write_weight_example :
    read_weight wire_default 9 (at 0 ((2 ∷ 1 ∷ 2 ∷ 1 ∷ 5 ∷ []) ++ (7 ∷ [])))
    ≡ ok (sample, at (0 + 5) (7 ∷ []))
read_weight-write_weight_example =
    read_weight-write_weight wire_default sample 9 (2 ∷ 1 ∷ 2 ∷ 1 ∷ 5 ∷ []) (7 ∷ []) 0
      sample-IsIdentifier (omega arith, omega arith) (omega arith, tt) (omega arith) (omega arith)
      sample_bytes (omega arith)

abbrev empty_version : List ℕ
empty_version = 69 ∷ 83 ∷ 66 ∷ 84 ∷ 1 ∷ 0 ∷ 4 ∷ 1 ∷ 0 ∷ 0 ∷ 0 ∷ 9 ∷ []

encoded : encode ArtifactKind.version (9 ∷ []) ≡ some empty_version
unfolding encode to_le
encoded = refl

empty_version-IsByte : All IsByte empty_version
empty_version-IsByte = ground arith

open_envelope_iff_example :
    (open_envelope wire_default empty_version ≡ ok (ArtifactKind.version, 9 ∷ [])) ↔ (
      (length empty_version ≤ wire_default.max_message_bytes)
      × (encode ArtifactKind.version (9 ∷ []) ≡ some empty_version))
open_envelope_iff_example =
    open_envelope_iff wire_default empty_version ArtifactKind.version (9 ∷ []) empty_version-IsByte
      (omega arith)

abbrev default_config : DocumentConfig
default_config = record {
  replica = record {
    dmax = pos 65536;
    base = 2147483647;
    depth = 256;
    adaptive_dmax = none;
    strategy = AllocationStrategy.midpoint;
  };
  limits = wire_default;
}
