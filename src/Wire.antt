-- ===== src/Wire.antt =====
-- src/wire.rs: the envelope of an artifact. The payload is a byte string here.
pub mod Envelope
use esbt_web.Base.{
  ℕ, ◌+◌, ◌<◌, ◌≡◌, refl, Bool, true, false, not, ◌&&◌, Option, none, some, List, [], ◌∷◌, ◌++◌,
  length, ltb, leb, ◌==◌, if◌then◌else◌,
}
use esbt_web.Error.{
  Result, ok, err, malformed_encoding, unsupported_format_version, message_too_large,
}
use esbt_web.Limits.{ResourceLimits}
use esbt_web.Codec.Reader.{
  Read, ◌>>=◌, ◌>>◌, pure, fail, reject, start, take_bytes, to_le, u8, u16, u32, whole,
}

pub data ArtifactKind : Type 0 where
  update compact_snapshot full_snapshot version anchor causal_position : ArtifactKind

-- `kind as u8`.
abbrev pub code : ArtifactKind → ℕ
code ArtifactKind.update = 1
code ArtifactKind.compact_snapshot = 2
code ArtifactKind.full_snapshot = 3
code ArtifactKind.version = 4
code ArtifactKind.anchor = 5
code ArtifactKind.causal_position = 6

-- `ArtifactKind::try_from`.
abbrev pub try_from : ℕ → Option ArtifactKind
try_from value =
    if value == 1
    then some ArtifactKind.update
    else if value == 2
    then some ArtifactKind.compact_snapshot
    else if value == 3
    then some ArtifactKind.full_snapshot
    else if value == 4
    then some ArtifactKind.version
    else if value == 5
    then some ArtifactKind.anchor
    else if value == 6
    then some ArtifactKind.causal_position
    else none

-- `WIRE_MAGIC`, the letters ESBT, and `WIRE_FORMAT_VERSION`.
abbrev pub wire_magic : List ℕ
wire_magic = 69 ∷ 83 ∷ 66 ∷ 84 ∷ []

abbrev pub wire_format_version : ℕ
wire_format_version = 1

abbrev pub same_bytes : List ℕ → List ℕ → Bool
same_bytes [] [] = true
same_bytes [] (y ∷ ys) = false
same_bytes (x ∷ xs) [] = false
same_bytes (x ∷ xs) (y ∷ ys) = (x == y) && same_bytes xs ys

-- `Artifact::encode` around a payload. `none` is the panic on a payload that exceeds the field.
unfoldable pub encode : ArtifactKind → List ℕ → Option (List ℕ)
encode kind payload =
    if ltb (length payload) 4294967296
    then some (
        wire_magic
        ++ (to_le 2 wire_format_version
            ++ (to_le 1 (code kind) ++ (to_le 4 (length payload) ++ payload))))
    else none

abbrev pub accept : Option ArtifactKind → Read ArtifactKind
accept none = fail malformed_encoding
accept (some kind) = pure kind

-- The header and the payload behind it.
unfoldable pub read_envelope : Read (ArtifactKind × List ℕ)
read_envelope = do
  magic ← take_bytes 4
  reject (not (same_bytes magic wire_magic)) malformed_encoding
  format ← u16
  reject (not (format == wire_format_version)) unsupported_format_version
  value ← u8
  kind ← accept (try_from value)
  payload_length ← u32
  payload ← take_bytes payload_length
  pure (kind, payload)

abbrev pub kind_of : Result (ArtifactKind × List ℕ) → Result ArtifactKind
kind_of (ok (kind, payload)) = ok kind
kind_of (err e) = err e

-- `Artifact::classify`.
unfoldable pub classify : List ℕ → Result ArtifactKind
unfolding read_envelope
classify bytes = kind_of (whole (read_envelope (start bytes)))

-- `Artifact::decode_with_limits`, as far as the payload's own decoder.
unfoldable pub open_envelope : ResourceLimits → List ℕ → Result (ArtifactKind × List ℕ)
unfolding read_envelope
open_envelope limits bytes =
    if ltb limits.max_message_bytes (length bytes)
    then err message_too_large
    else whole (read_envelope (start bytes))
