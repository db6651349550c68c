-- ===== src/Anchor/RoundTrip.antt =====
-- src/anchor.rs: an anchor is read back from its payload.
use mathlib.Core.List.{append-nil}
use esbt_web.Base.{
  ℕ, ◌+◌, ◌^◌, ◌<◌, ◌≤◌, ◌≡◌, refl, ap, sym, subst, true, false, inl, inr, Option, Option-cases,
  none, some, List, [], ◌∷◌, ◌++◌, length, ltb, u64_limit, arith,
}
use esbt_web.Error.{ok}
use esbt_web.Limits.{ResourceLimits}
use esbt_web.Weight.{Weight}
use esbt_web.Weight.Validate.{IsIdentifier}
use esbt_web.Codec.Reader
use esbt_web.Codec.Reader.{Read, ◌>>=◌, ◌>>◌, pure, reject, read_le, to_le, whole}
use esbt_web.Codec.Reader.Laws.{at}
use esbt_web.Codec.Reader.Reads.{
  Reads, Reads-bind, Reads-pure, Reads-last, Reads-reject, Reads-read_le,
}
use esbt_web.Base.Int.{IsI64}
use esbt_web.Codec.Weights.{write_weight}
use esbt_web.Codec.Weights.Parts.{AreDigits}
use esbt_web.Codec.Weights.RoundTrip.{read_weight-write_weight}
use esbt_web.Anchor.{
  Affinity, AnchorTarget, Anchor, affinity_code, target_bytes, encode_anchor, affinity_of,
  read_item, target_of, is_canonical, read_anchor, decode_anchor, no_site_context,
}

-- An item has a document identifier of the machine's integers, and a counter other than zero.
abbrev pub IsTarget : ResourceLimits → AnchorTarget → Type 0
IsTarget limits AnchorTarget.start = Unit
IsTarget limits AnchorTarget.end = Unit
IsTarget limits (AnchorTarget.item w counter) =
    IsIdentifier (some limits.max_identifier_depth) w
    × IsI64 w.sn
    × AreDigits w.sc
    × (w.site < 2 ^ 128)
    × (length w.sc < u64_limit)
    × (0 < counter)
    × (counter < 256 ^ 8)

abbrev value_of : {A : Type 0} → A → Option A → A
value_of d none = d
value_of d (some a) = a

Reads-read_item :
    (limits : ResourceLimits) (w : Weight) (counter : ℕ) (ws : List ℕ)
    → write_weight w no_site_context ≡ some ws
    → IsTarget limits (AnchorTarget.item w counter)
    → Reads (read_item limits) (ws ++ to_le 8 counter) (AnchorTarget.item w counter)
unfolding read_item
Reads-read_item limits w counter ws written h =
    Reads-bind _ _ ws (to_le 8 counter)
      (record {
        reads = λ o rest fits.
            read_weight-write_weight limits w no_site_context ws rest o h.0 h.1 h.2 h.3 h.4 written
              fits;
      })
      (Reads-last (to_le 8 counter) (
        Reads-bind _ _ (to_le 8 counter) [] (Reads-read_le 8 counter (omega arith) h.6)
          (Reads-reject _ _ (ground (arith, h.5)) (Reads-pure (AnchorTarget.item w counter)))))

abbrev made : Affinity → AnchorTarget → Anchor
made affinity t = record { target = t; affinity = affinity }

-- The target, and the anchor made of it.
abbrev read_tail : ResourceLimits → Affinity → Read Anchor
read_tail limits affinity = read_le 1 >>= λ b. target_of limits b >>= λ t. pure (made affinity t)

Reads-target :
    (limits : ResourceLimits) (t : AnchorTarget) (affinity : Affinity) (bytes : List ℕ)
    → target_bytes t ≡ some bytes
    → IsTarget limits t
    → Reads (read_tail limits affinity) bytes (made affinity t)
unfolding target_bytes target_of to_le
Reads-target limits AnchorTarget.start affinity bytes e h =
    subst (λ l. Reads (read_tail limits affinity) l (made affinity AnchorTarget.start))
      (ap (value_of []) e)
      (Reads-bind (read_le 1) _ (1 ∷ []) [] (Reads-read_le 1 1 (omega arith) (omega arith))
        (Reads-bind (target_of limits 1) _ [] [] (Reads-pure AnchorTarget.start) (Reads-pure _)))
Reads-target limits AnchorTarget.end affinity bytes e h =
    subst (λ l. Reads (read_tail limits affinity) l (made affinity AnchorTarget.end))
      (ap (value_of []) e)
      (Reads-bind (read_le 1) _ (2 ∷ []) [] (Reads-read_le 1 2 (omega arith) (omega arith))
        (Reads-bind (target_of limits 2) _ [] [] (Reads-pure AnchorTarget.end) (Reads-pure _)))
Reads-target limits (AnchorTarget.item w counter) affinity bytes e h =
    elim (Option-cases (write_weight w no_site_context)) [
      | inl nothing ↦ absurd (ground (arith, e, nothing))
      | inr (ws, written) ↦
          let rest = ws ++ to_le 8 counter in
          let same : some (3 ∷ rest) ≡ some bytes = ground (arith, e, written) in
          subst
            (λ l. Reads (read_tail limits affinity) l (made affinity (AnchorTarget.item w counter)))
            (ap (value_of []) same)
            (Reads-bind (read_le 1) _ (3 ∷ []) rest (Reads-read_le 1 3 (omega arith) (omega arith))
              (Reads-last rest (
                Reads-bind (target_of limits 3) _ rest []
                  (Reads-read_item limits w counter ws written h) (Reads-pure _))))
    ]

Reads-affinity :
    (limits : ResourceLimits) (t : AnchorTarget) (affinity : Affinity) (bytes : List ℕ)
    → target_bytes t ≡ some bytes
    → IsTarget limits t
    → Reads
        (read_anchor limits)
        (affinity_code affinity ∷ bytes)
        (record { target = t; affinity = affinity })
unfolding read_anchor affinity_of to_le
Reads-affinity limits t Affinity.before bytes e h =
    Reads-bind (read_le 1) _ (1 ∷ []) bytes (Reads-read_le 1 1 (omega arith) (omega arith)) (
      Reads-bind (affinity_of 1) _ [] bytes (Reads-pure Affinity.before)
        (Reads-target limits t Affinity.before bytes e h))
Reads-affinity limits t Affinity.after bytes e h =
    Reads-bind (read_le 1) _ (2 ∷ []) bytes (Reads-read_le 1 2 (omega arith) (omega arith)) (
      Reads-bind (affinity_of 2) _ [] bytes (Reads-pure Affinity.after)
        (Reads-target limits t Affinity.after bytes e h))

-- If an anchor has the affinity of a sentinel where it is one, and where it is an item a document
-- identifier within the depth limit whose parts fit their types and a nonzero `u64` counter, and
-- if its payload is within the message limit and `usize` holds the length of the payload plus 16,
-- then the payload is decoded to the anchor.
pub decode_anchor-encode_anchor :
    (limits : ResourceLimits) (a : Anchor) (bytes : List ℕ)
    → is_canonical a.target a.affinity ≡ true
    → IsTarget limits a.target
    → encode_anchor a ≡ some bytes
    → length bytes ≤ limits.max_message_bytes
    → length bytes + 16 < u64_limit
    → decode_anchor limits bytes ≡ ok a
unfolding encode_anchor decode_anchor
decode_anchor-encode_anchor limits a bytes proper h e small fits =
    elim (Option-cases (target_bytes a.target)) [
      | inl nothing ↦ absurd (ground (arith, e, nothing))
      | inr (rest, written) ↦
          let same : some (affinity_code a.affinity ∷ rest) ≡ some bytes =
            ground (arith, e, written) in
          let reads =
            subst (λ l. Reads (read_anchor limits) l a) (ap (value_of []) same)
              (Reads-affinity limits a.target a.affinity rest written h) in
          let run = reads.reads 0 [] (omega (arith, fits)) in
          let begin : Reader.start bytes ≡ at 0 (bytes ++ []) =
            ap (at 0) (sym (append-nil bytes)) in
          let within : ltb limits.max_message_bytes (length bytes) ≡ false =
            ground (arith, small) in
          rw (within, begin, run, proper) refl
    ]
