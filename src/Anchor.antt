-- ===== src/Anchor.antt =====
-- src/anchor.rs: stable positions.
pub mod Resolve
pub mod RoundTrip
use esbt_web.Base.{
  ℕ, ◌+◌, ◌-◌, min, ◌≡◌, refl, Bool, true, false, ◌&&◌, Option, Option-cases, none, some, List, [],
  ◌∷◌, ◌++◌, length, ltb, leb, ◌==◌, if◌then◌else◌,
}
use esbt_web.Error.{
  ErrorCode, Result, ok, err, message_too_large, invalid_anchor, non_canonical_encoding,
}
use esbt_web.Limits.{ResourceLimits}
use esbt_web.Weight.{Weight}
use esbt_web.Codec.Reader
use esbt_web.Codec.Reader.{Read, ◌>>=◌, ◌>>◌, pure, fail, reject, read_le, to_le, whole}
use esbt_web.Codec.Weights.{write_weight, read_weight}
use esbt_web.DocTree
use esbt_web.DocTree.{Atom}
use esbt_web.Replica.{Replica, len}

pub data Affinity : Type 0 where
  before after : Affinity

pub data AnchorTarget : Type 0 where
  start end : AnchorTarget
  item : Weight → ℕ → AnchorTarget

pub record Anchor : Type 0 where
  pub target : AnchorTarget
  pub affinity : Affinity

-- `Anchor::start` and `Anchor::end`.
abbrev pub start_anchor : Anchor
start_anchor = record { target = AnchorTarget.start; affinity = Affinity.after }

abbrev pub end_anchor : Anchor
end_anchor = record { target = AnchorTarget.end; affinity = Affinity.before }

-- The anchor at an atom, or a sentinel.
unfoldable pub anchored : Affinity → Anchor → Option Atom → Anchor
anchored affinity sentinel none = sentinel
anchored affinity sentinel (some a) = record {
  target = AnchorTarget.item a.weight a.counter;
  affinity = affinity;
}

-- `Anchor::at_index`.
unfoldable pub at_index : Replica → ℕ → Affinity → Anchor
unfolding anchored
at_index r index Affinity.before =
    anchored Affinity.before end_anchor (DocTree.get_at (min index (len r)) r.doc)
at_index r index Affinity.after =
    if min index (len r) == 0
    then start_anchor
    else anchored Affinity.after start_anchor (DocTree.get_at (min index (len r) - 1) r.doc)

abbrev pub offset : Affinity → ℕ
offset Affinity.before = 0
offset Affinity.after = 1

-- `is_some_and(|(_, live_counter)| live_counter == *counter)`.
abbrev pub is_live : Option (ℕ × ℕ) → ℕ → Bool
is_live none counter = false
is_live (some (unit, live)) counter = live == counter

abbrev pub or_lower_bound : Option ℕ → ℕ → ℕ
or_lower_bound none bound = bound
or_lower_bound (some index) bound = index

-- `Anchor::resolve`.
unfoldable pub resolve_target : AnchorTarget → Affinity → Replica → ℕ
resolve_target AnchorTarget.start affinity r = 0
resolve_target AnchorTarget.end affinity r = len r
resolve_target (AnchorTarget.item w counter) affinity r =
    if is_live (DocTree.find w r.doc) counter
    then or_lower_bound (DocTree.index_of w 0 r.doc) (DocTree.lower_bound w r.doc) + offset affinity
    else DocTree.lower_bound w r.doc

unfoldable pub resolve : Anchor → Replica → ℕ
unfolding resolve_target
resolve a r = resolve_target a.target a.affinity r

pub record AnchorRange : Type 0 where
  pub start : Anchor
  pub end : Anchor

-- `AnchorRange::resolve`.
unfoldable pub resolve_range : AnchorRange → Replica → ℕ × ℕ
unfolding resolve
resolve_range range r =
    let from = resolve range.start r in
    let to = resolve range.end r in if leb from to then (from, to) else (to, to)

-- `NO_SITE_CONTEXT`.
abbrev pub no_site_context : ℕ
no_site_context = 0

abbrev pub affinity_code : Affinity → ℕ
affinity_code Affinity.before = 1
affinity_code Affinity.after = 2

-- `Anchor::encode_payload`; there are no bytes where `write_weight` has none.
unfoldable pub target_bytes : AnchorTarget → Option (List ℕ)
target_bytes AnchorTarget.start = some (1 ∷ [])
target_bytes AnchorTarget.end = some (2 ∷ [])
target_bytes (AnchorTarget.item w counter) = elim (write_weight w no_site_context) [
  | none ↦ none
  | some bytes ↦ some (3 ∷ (bytes ++ to_le 8 counter))
]

unfoldable pub encode_anchor : Anchor → Option (List ℕ)
unfolding target_bytes
encode_anchor a = elim (target_bytes a.target) [
  | none ↦ none
  | some bytes ↦ some (affinity_code a.affinity ∷ bytes)
]

-- The parts of `Anchor::decode_payload_with_limits`.
unfoldable pub affinity_of : ℕ → Read Affinity
affinity_of code =
    if code == 1
    then pure Affinity.before
    else if code == 2
    then pure Affinity.after
    else fail invalid_anchor

unfoldable pub read_item : ResourceLimits → Read AnchorTarget
read_item limits = read_weight limits no_site_context >>= λ w. read_le 8 >>= λ counter.
    reject (counter == 0) invalid_anchor >> pure (AnchorTarget.item w counter)

unfoldable pub target_of : ResourceLimits → ℕ → Read AnchorTarget
unfolding read_item
target_of limits code =
    if code == 1
    then pure AnchorTarget.start
    else if code == 2
    then pure AnchorTarget.end
    else if code == 3
    then read_item limits
    else fail invalid_anchor

-- A sentinel has one affinity.
unfoldable pub is_canonical : AnchorTarget → Affinity → Bool
is_canonical AnchorTarget.start Affinity.before = false
is_canonical AnchorTarget.start Affinity.after = true
is_canonical AnchorTarget.end Affinity.before = true
is_canonical AnchorTarget.end Affinity.after = false
is_canonical (AnchorTarget.item w counter) affinity = true

unfoldable pub read_anchor : ResourceLimits → Read Anchor
unfolding affinity_of target_of
read_anchor limits = read_le 1 >>= λ affinity_byte. affinity_of affinity_byte >>= λ affinity.
    read_le 1 >>= λ target_byte. target_of limits target_byte >>= λ target.
    pure (record { target = target; affinity = affinity })

abbrev pub canonical : Result Anchor → Result Anchor
canonical (err e) = err e
canonical (ok a) = if is_canonical a.target a.affinity then ok a else err non_canonical_encoding

-- `Anchor::decode_payload_with_limits`.
unfoldable pub decode_anchor : ResourceLimits → List ℕ → Result Anchor
unfolding read_anchor is_canonical
decode_anchor limits bytes =
    if ltb limits.max_message_bytes (length bytes)
    then err message_too_large
    else canonical (whole (read_anchor limits (Reader.start bytes)))
