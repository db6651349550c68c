-- ===== src/Wire/Envelope.antt =====
-- src/wire.rs: the envelopes that a decoder opens are those that the encoder makes.
use mathlib.Core.List.{append_assoc, append-nil}
use esbt_web.Base.{
  ℕ, ◌+◌, ◌<◌, ◌≤◌, ◌≡◌, ◌↔◌, refl, ap, ap₂, sym, subst, ◌∙◌, Bool, true, false, not, Bool-cases,
  ==_iff, inl, inr, Option, none, some, List, [], ◌∷◌, ◌++◌, length, All, ltb, ◌==◌, u64_limit,
  arith,
}
use esbt_web.Error.{Result, ErrorCode, non_canonical_encoding, message_too_large, ok, err}
use esbt_web.Limits.{ResourceLimits}
use esbt_web.Codec.Reader.{
  Reader, Read, ◌>>=◌, ◌>>◌, pure, fail, reject, start, take_bytes, to_le, whole,
}
use esbt_web.Codec.Reader.Laws.{
  at, IsByte, take_bytes-append, >>=-eq-ok, take_bytes_ok, read_le_ok, All-append_split,
}
use esbt_web.Codec.Reader.Reads.{
  Reads, Reads-pure, Reads-last, Reads-bind, Reads-reject, Reads-read_le,
}
use esbt_web.Wire.{
  ArtifactKind, code, try_from, wire_magic, wire_format_version, same_bytes, encode, accept,
  read_envelope, kind_of, classify, open_envelope,
}

try_from-code : (k : ArtifactKind) → try_from (code k) ≡ some k
try_from-code ArtifactKind.update = refl
try_from-code ArtifactKind.compact_snapshot = refl
try_from-code ArtifactKind.full_snapshot = refl
try_from-code ArtifactKind.version = refl
try_from-code ArtifactKind.anchor = refl
try_from-code ArtifactKind.causal_position = refl

code_small : (k : ArtifactKind) → code k < 256
code_small ArtifactKind.update = omega arith
code_small ArtifactKind.compact_snapshot = omega arith
code_small ArtifactKind.full_snapshot = omega arith
code_small ArtifactKind.version = omega arith
code_small ArtifactKind.anchor = omega arith
code_small ArtifactKind.causal_position = omega arith

code-try_from : (v : ℕ) (k : ArtifactKind) → try_from v ≡ some k → code k ≡ v
code-try_from v ArtifactKind.update h = ground arith
code-try_from v ArtifactKind.compact_snapshot h = ground arith
code-try_from v ArtifactKind.full_snapshot h = ground arith
code-try_from v ArtifactKind.version h = ground arith
code-try_from v ArtifactKind.anchor h = ground arith
code-try_from v ArtifactKind.causal_position h = ground arith

same_bytes→eq : (xs ys : List ℕ) → same_bytes xs ys ≡ true → xs ≡ ys
same_bytes→eq [] [] h = refl
same_bytes→eq [] (y ∷ ys) h = ground arith
same_bytes→eq (x ∷ xs) [] h = ground arith
same_bytes→eq (x ∷ xs) (y ∷ ys) h =
    let e : x ≡ y = ground arith in
    ap₂ (λ (d : ℕ) (ds : List ℕ). d ∷ ds) e (same_bytes→eq xs ys (ground arith))

Reads-take_bytes : (xs : List ℕ) → Reads (take_bytes (length xs)) xs xs
Reads-take_bytes xs = record { reads = λ o rest fits. take_bytes-append xs rest o (omega arith) }

Reads-accept : (kind : ArtifactKind) → Reads (accept (try_from (code kind))) [] kind
Reads-accept kind =
    subst (λ o. Reads (accept o) [] kind) (sym (try_from-code kind)) (Reads-pure kind)

-- The bytes of an envelope.
framed : ArtifactKind → List ℕ → List ℕ
framed kind payload =
    wire_magic
    ++ (to_le 2 wire_format_version
        ++ (to_le 1 (code kind) ++ (to_le 4 (length payload) ++ payload)))

Reads-read_envelope :
    (kind : ArtifactKind) (payload : List ℕ)
    → length payload < 4294967296
    → Reads read_envelope (framed kind payload) (kind, payload)
unfolding read_envelope framed
Reads-read_envelope kind payload small =
    let sized = to_le 4 (length payload) ++ payload in
    Reads-bind _ _ wire_magic (to_le 2 wire_format_version ++ (to_le 1 (code kind) ++ sized))
      (Reads-take_bytes wire_magic)
      (Reads-reject _ _ refl (
        Reads-bind _ _ (to_le 2 wire_format_version) (to_le 1 (code kind) ++ sized)
          (Reads-read_le 2 wire_format_version (omega arith) (omega arith))
          (Reads-reject _ _ refl (
            Reads-bind _ _ (to_le 1 (code kind)) sized
              (Reads-read_le 1 (code kind) (omega arith) (code_small kind))
              (Reads-bind _ _ [] sized (Reads-accept kind) (
                Reads-bind _ _ (to_le 4 (length payload)) payload
                  (Reads-read_le 4 (length payload) (omega arith) small)
                  (Reads-last payload (
                    Reads-bind _ _ payload [] (Reads-take_bytes payload)
                      (Reads-pure (kind, payload))))))))))

-- What the encoder makes of a payload that fits the length field.
encode-framed :
    (kind : ArtifactKind) (payload : List ℕ)
    → length payload < 4294967296
    → encode kind payload ≡ some (framed kind payload)
unfolding encode framed
encode-framed kind payload small =
    let fits : ltb (length payload) 4294967296 ≡ true = ground arith in rw fits

passed :
    {B : Type 0} (test : Bool) (e : ErrorCode) (k : Read B) (r r' : Reader) (b : B)
    → (reject test e >> k) r ≡ ok (b, r')
    → (test ≡ false) × (k r ≡ ok (b, r'))
unfolding ◌>>◌ ◌>>=◌ reject
passed true e k r r' b h = absurd cc
passed false e k r r' b h = (refl, h)

accept_ok :
    (o : Option ArtifactKind) (r r' : Reader) (kind : ArtifactKind)
    → accept o r ≡ ok (kind, r')
    → (o ≡ some kind) × (r ≡ r')
unfolding pure fail
accept_ok none r r' kind h = absurd cc
accept_ok (some k) r r' kind h = (cc, cc)

pure_ok :
    (k : ArtifactKind) (xs : List ℕ) (r : Reader) (kind : ArtifactKind) (payload : List ℕ)
    (r' : Reader)
    → pure {A = ArtifactKind × List ℕ} (k, xs) r ≡ ok ((kind, payload), r')
    → (k ≡ kind) × (xs ≡ payload) × (r ≡ r')
unfolding pure
pure_ok k xs r kind payload r' h = (cc, cc, cc)

unless : (b : Bool) → not b ≡ false → b ≡ true
unless true h = refl
unless false h = absurd cc

regroup :
    (kind : ArtifactKind) (payload rest : List ℕ)
    → framed kind payload ++ rest
      ≡ wire_magic
        ++ (to_le 2 wire_format_version
            ++ (to_le 1 (code kind) ++ (to_le 4 (length payload) ++ (payload ++ rest))))
unfolding framed
regroup kind payload rest = simp append_assoc

-- A successful read of an envelope: its bytes stood at the front.
read_envelope_ok :
    (r r' : Reader) (kind : ArtifactKind) (payload : List ℕ)
    → All IsByte r.unread
    → read_envelope r ≡ ok ((kind, payload), r')
    → (r.unread ≡ framed kind payload ++ r'.unread) × (length payload < 4294967296)
unfolding read_envelope framed pure
read_envelope_ok r r' kind payload b0 h =
    let (magic, r1, e1, h1) = >>=-eq-ok _ _ r (kind, payload) r' h in
    let (is_magic, h2) = passed _ _ _ r1 r' (kind, payload) h1 in
    let (format, r2, e2, h3) = >>=-eq-ok _ _ r1 (kind, payload) r' h2 in
    let (is_format, h4) = passed _ _ _ r2 r' (kind, payload) h3 in
    let (value, r3, e3, h5) = >>=-eq-ok _ _ r2 (kind, payload) r' h4 in
    let (k, r4, e4, h6) = >>=-eq-ok _ _ r3 (kind, payload) r' h5 in
    let (n, r5, e5, h7) = >>=-eq-ok _ _ r4 (kind, payload) r' h6 in
    let (xs, r6, e6, h8) = >>=-eq-ok _ _ r5 (kind, payload) r' h7 in
    let (front1, len1, off1) = take_bytes_ok 4 r r1 magic e1 in
    let b1 = (All-append_split magic r1.unread (subst (All IsByte) front1 b0)).1 in
    let (front2, bound2, off2, b2) = read_le_ok 2 r1 r2 format b1 e2 in
    let (front3, bound3, off3, b3) = read_le_ok 1 r2 r3 value b2 e3 in
    let (found, same34) = accept_ok (try_from value) r3 r4 k e4 in
    let b4 = subst (λ (x : Reader). All IsByte x.unread) same34 b3 in
    let (front5, bound5, off5, b5) = read_le_ok 4 r4 r5 n b4 e5 in
    let (front6, len6, off6) = take_bytes_ok n r5 r6 xs e6 in
    let (same_kind, same_payload, same_rest) = pure_ok k xs r6 kind payload r' h8 in
    let size : length payload ≡ n = ap length (sym same_payload) ∙ len6 in
    let is_code : value ≡ code kind = sym (code-try_from value kind (found ∙ ap some same_kind)) in
    (
      front1
          ∙ ap₂ ◌++◌ (same_bytes→eq magic wire_magic (unless _ is_magic)) (
              front2
              ∙ ap₂ ◌++◌ (ap (to_le 2) ((==_iff format wire_format_version).0 (unless _ is_format)))
                  (front3
                    ∙ ap₂ ◌++◌ (ap (to_le 1) is_code) (
                        ap (λ (x : Reader). x.unread) same34
                        ∙ front5
                        ∙ ap₂ ◌++◌ (ap (to_le 4) (sym size)) (
                            front6
                            ∙ ap₂ ◌++◌ same_payload (ap (λ (x : Reader). x.unread) same_rest)))))
          ∙ sym (regroup kind payload r'.unread),
      omega (arith, size, bound5),
    )

nothing : (l : List ℕ) → (length l == 0) ≡ true → l ≡ []
nothing [] h = refl
nothing (x ∷ l) h = absurd (ground arith)

whole_ok :
    {A : Type 0} (r : Result (A × Reader)) (a : A)
    → whole r ≡ ok a
    → (r' : Reader) × (r ≡ ok (a, r')) × (r'.unread ≡ [])
whole_ok {A} (err e) a h = absurd cc
whole_ok {A} (ok (x, r)) a h = elim (Bool-cases (length r.unread == 0)) [
  | inl done ↦
      let same : ◌≡◌ {A = Result A} (ok x) (ok a) = rw done at h in
      let e : x ≡ a = cc in (r, ap (λ y. ok (y, r)) e, nothing r.unread done)
  | inr left ↦
      let failed : ◌≡◌ {A = Result A} (err non_canonical_encoding) (ok a) = rw left at h in
      absurd cc
]

opened :
    (bytes : List ℕ) (kind : ArtifactKind) (payload : List ℕ)
    → All IsByte bytes
    → whole (read_envelope (start bytes)) ≡ ok (kind, payload)
    → encode kind payload ≡ some bytes
opened bytes kind payload b h =
    let (r', e, none_left) = whole_ok (read_envelope (start bytes)) (kind, payload) h in
    let (front, small) = read_envelope_ok (start bytes) r' kind payload b e in
    encode-framed kind payload small
    ∙ ap some (
        sym
          (front ∙ ap (λ l. framed kind payload ++ l) none_left ∙ append-nil (framed kind payload)))

whole-framed :
    (kind : ArtifactKind) (payload : List ℕ)
    → length payload < 4294967296
    → length (framed kind payload) + 16 < u64_limit
    → whole (read_envelope (start (framed kind payload))) ≡ ok (kind, payload)
whole-framed kind payload small fits =
    let run = (Reads-read_envelope kind payload small).reads 0 [] (omega arith) in
    let same : start (framed kind payload) ≡ at 0 (framed kind payload ++ []) =
      ap (at 0) (sym (append-nil (framed kind payload))) in
    rw (same, run)

some-injective : (a b : List ℕ) → ◌≡◌ {A = Option (List ℕ)} (some a) (some b) → a ≡ b
some-injective a b h = cc

encode-some :
    (kind : ArtifactKind) (payload bytes : List ℕ)
    → encode kind payload ≡ some bytes
    → (length payload < 4294967296) × (framed kind payload ≡ bytes)
unfolding encode framed
encode-some kind payload bytes e = elim (Bool-cases (ltb (length payload) 4294967296)) [
  | inl small ↦
      let fits : length payload < 4294967296 = ground arith in
      (fits, some-injective _ _ (sym (encode-framed kind payload fits) ∙ e))
  | inr big ↦ let failed : ◌≡◌ {A = Option (List ℕ)} none (some bytes) = rw big at e in absurd cc
]

closed :
    (bytes : List ℕ) (kind : ArtifactKind) (payload : List ℕ)
    → length bytes + 16 < u64_limit
    → encode kind payload ≡ some bytes
    → whole (read_envelope (start bytes)) ≡ ok (kind, payload)
closed bytes kind payload fits e =
    let (small, same) = encode-some kind payload bytes e in
    subst (λ l. length l + 16 < u64_limit → whole (read_envelope (start l)) ≡ ok (kind, payload))
      same (whole-framed kind payload small) fits

-- If what the decoder is given are bytes, fewer by 16 than `usize` can count, then it opens them as a
-- kind and a payload exactly where they are within the message limit of the policy and what the
-- encoder makes of that kind and payload.
pub open_envelope_iff :
    (limits : ResourceLimits) (bytes : List ℕ) (kind : ArtifactKind) (payload : List ℕ)
    → All IsByte bytes
    → length bytes + 16 < u64_limit
    → (open_envelope limits bytes ≡ ok (kind, payload))
      ↔ ((length bytes ≤ limits.max_message_bytes) × (encode kind payload ≡ some bytes))
unfolding open_envelope
open_envelope_iff limits bytes kind payload b fits =
    elim (Bool-cases (ltb limits.max_message_bytes (length bytes))) [
      | inl large ↦ (
        λ h.
            let refused : ◌≡◌ {A = Result (ArtifactKind × List ℕ)} (err message_too_large)
                (ok (kind, payload)) =
              rw large at h in
            absurd cc,
        λ h. absurd (ground (arith, h.0, large)),
      )
      | inr within ↦ (
        λ h. (ground (arith, within), opened bytes kind payload b (rw within at h)),
        λ h. rw within (closed bytes kind payload fits h.1),
      )
    ]

-- `classify` names the kind of every envelope that the encoder makes.
pub classify-encode :
    (bytes : List ℕ) (kind : ArtifactKind) (payload : List ℕ)
    → length bytes + 16 < u64_limit
    → encode kind payload ≡ some bytes
    → classify bytes ≡ ok kind
unfolding classify
classify-encode bytes kind payload fits e = ap kind_of (closed bytes kind payload fits e)
