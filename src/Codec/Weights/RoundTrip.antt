-- ===== src/Codec/Weights/RoundTrip.antt =====
-- src/codec.rs: a weight is read back from the bytes that `write_weight` makes of it.
use mathlib.Core.List.{append_assoc, append-nil}
use esbt_web.Base.{
  ℕ, ◌+◌, ◌/◌, ◌%◌, ◌^◌, ◌<◌, ◌≤◌, ◌≡◌, ◌≢◌, refl, ap, sym, subst, ◌∙◌, Bool, Bool-cases, ==_iff,
  inl, inr, true, false, not, ◌||◌, Option, none, some, List, [], ◌∷◌, ◌++◌, length, leb, ◌==◌,
  if◌then◌else◌, u64_limit, arith,
}
use esbt_web.Limits.{ResourceLimits}
use esbt_web.Codec.Reader.{pure, to_le}
use esbt_web.Codec.Reader.Reads.{
  Reads, Reads-pure, Reads-pure_eq, Reads-last, Reads-peek, Reads-bind, Reads-reject, Reads-read_le,
}
use esbt_web.Codec.Varint.{write_uvarint}
use esbt_web.Codec.Weights.Parts.{Reads-uvarint, AreDigits, Reads-read_digits, budget_ok}
use esbt_web.Base.Int.{pos, eqb_ℤ, IsI64}
use esbt_web.Error.{ok}
use esbt_web.Weight
use esbt_web.Weight.{Weight}
use esbt_web.Weight.Validate.{IsIdentifier, validate_document_identifier_iff}
use esbt_web.Codec.Reader.{◌>>◌}
use esbt_web.Codec.Reader.Laws.{at}
use esbt_web.Codec.Varint.{bits}
use esbt_web.Codec.Weights.Parts.{Reads-read_fraction, Reads-read_sn}
use esbt_web.Codec.Weights.{
  flags_byte, write_sn, write_site, write_body, write_weight, write_weight_parts, read_sn,
  read_weight, read_weight_parts, lift, origin, is_default_path, inlines, write_digits, write_path,
  read_path, read_sc, read_site, check_path_budget, read_digits,
}

Reads-read_path :
    (limits : ResourceLimits) (l : List ℕ)
    → AreDigits l
    → 0 < length l
    → length l ≤ limits.max_identifier_depth
    → length l < u64_limit
    → Reads (read_path limits none) (write_path l none) l
unfolding read_path write_path
Reads-read_path limits l digits some_digits depth fits =
    let used : (length l == 0) ≡ false = ground arith in
    Reads-bind _ _ (write_uvarint (length l)) (write_digits l) (Reads-uvarint (length l) fits) (
      Reads-reject _ _ used (
        Reads-peek (check_path_budget limits (length l) (length l)) (read_digits (length l))
          (budget_ok limits (length l) l depth) (Reads-read_digits l digits)))

default_path : (l : List ℕ) → is_default_path l ≡ true → (0 ∷ []) ≡ l
unfolding is_default_path
default_path [] e = ground arith
default_path (d ∷ []) e = ap (λ (x : ℕ). x ∷ []) (sym ((==_iff d 0).0 e))
default_path (d ∷ x ∷ l) e = ground arith

Reads-read_sc :
    (limits : ResourceLimits) (l : List ℕ)
    → AreDigits l
    → 0 < length l
    → length l ≤ limits.max_identifier_depth
    → length l < u64_limit
    → Reads
        (read_sc limits none (not (is_default_path l)))
        (if is_default_path l then [] else write_path l none)
        l
unfolding read_sc
Reads-read_sc limits l digits some_digits depth fits = elim (Bool-cases (is_default_path l)) [
  | inl is_default ↦ rw is_default (Reads-pure_eq _ _ (default_path l is_default))
  | inr explicit ↦ rw explicit (
      Reads-last (write_path l none) (
        Reads-bind _ _ (write_path l none) []
          (Reads-read_path limits l digits some_digits depth fits)
          (Reads-reject _ _ explicit (Reads-pure l))))
]

Reads-read_site :
    (context site : ℕ)
    → site < 2 ^ 128
    → site ≢ 0
    → Reads
        (read_site (origin context) (inlines (origin context) site))
        (if inlines (origin context) site then to_le 16 site else [])
        site
unfolding read_site
Reads-read_site context site bound nonzero = elim (Bool-cases (inlines (origin context) site)) [
  | inl inline ↦
      let foreign : ((site == 0) || (site == context)) ≡ false = ground arith in
      rw inline (
        Reads-last (to_le 16 site) (
          Reads-bind _ _ (to_le 16 site) [] (Reads-read_le 16 site (omega arith) bound)
            (Reads-reject _ _ foreign (Reads-pure site))))
  | inr elided ↦
      let known : (context == 0) ≡ false = ground arith in
      let same : context ≡ site = ground arith in
      rw elided (Reads-reject _ _ known (Reads-pure_eq context site same))
]

flags-bits :
    (a b c : Bool)
    → (leb 8 (flags_byte a b c) ≡ false)
      × ((flags_byte a b c % 2 == 1) ≡ a)
      × ((flags_byte a b c / 2 % 2 == 1) ≡ b)
      × ((flags_byte a b c / 4 % 2 == 1) ≡ c)
      × (to_le 1 (flags_byte a b c) ≡ flags_byte a b c ∷ [])
unfolding to_le
flags-bits true true true = (refl, refl, refl, refl, refl)
flags-bits true true false = (refl, refl, refl, refl, refl)
flags-bits true false true = (refl, refl, refl, refl, refl)
flags-bits true false false = (refl, refl, refl, refl, refl)
flags-bits false true true = (refl, refl, refl, refl, refl)
flags-bits false true false = (refl, refl, refl, refl, refl)
flags-bits false false true = (refl, refl, refl, refl, refl)
flags-bits false false false = (refl, refl, refl, refl, refl)

or_zero-nonempty : (l : List ℕ) → 0 < length l → Weight.or_zero l ≡ l
or_zero-nonempty [] h = ground arith
or_zero-nonempty (d ∷ l) h = refl

-- The checks that end the reader.
Reads-accept :
    (limits : ResourceLimits) (w : Weight)
    → IsIdentifier (some limits.max_identifier_depth) w
    → Reads
        (lift (
            Weight.validate_document_identifier
              (some limits.max_identifier_depth)
              (Weight.new w.f w.sn w.sc w.site))
          >> pure (Weight.new w.f w.sn w.sc w.site))
        []
        w
unfolding pure
Reads-accept limits w h =
    let same : Weight.new w.f w.sn w.sc w.site ≡ w =
      ap (λ l. record { f = w.f; sn = w.sn; sc = l; site = w.site })
        (or_zero-nonempty w.sc h.path_nonempty) in
    let valid = (validate_document_identifier_iff (some limits.max_identifier_depth) w).1 h in
    subst
      (λ v.
        Reads
          (lift (Weight.validate_document_identifier (some limits.max_identifier_depth) v)
            >> pure v)
          [] w)
      (sym same)
      (subst (λ r. Reads (lift r >> pure w) [] w) (sym valid)
        (Reads-peek (lift (ok tt)) (pure w) (λ o rest. refl) (Reads-pure w)))

-- The fields of a weight in the order of the wire.
fields : Weight → ℕ → List ℕ
fields w context =
    (write_uvarint (bits w.f.p) ++ write_uvarint (bits w.f.q))
    ++ (write_sn w.sn
        ++ ((if is_default_path w.sc then [] else write_path w.sc none)
            ++ ((if inlines (origin context) w.site then to_le 16 w.site else []) ++ [])))

Reads-fields :
    (limits : ResourceLimits) (w : Weight) (context : ℕ)
    → IsIdentifier (some limits.max_identifier_depth) w
    → IsI64 w.sn
    → AreDigits w.sc
    → w.site < 2 ^ 128
    → length w.sc < u64_limit
    → Reads
        (read_weight limits context)
        (to_le 1 (
            flags_byte
              (not (eqb_ℤ w.sn (pos 0)))
              (not (is_default_path w.sc))
              (inlines (origin context) w.site))
          ++ fields w context)
        w
unfolding read_weight read_weight_parts fields
Reads-fields limits w context identifier sn digits site len =
    let a = not (eqb_ℤ w.sn (pos 0)) in
    let b = not (is_default_path w.sc) in
    let c = inlines (origin context) w.site in
    let (small, is_a, is_b, is_c, byte) = flags-bits a b c in
    Reads-bind _ _ (to_le 1 (flags_byte a b c)) (fields w context)
      (Reads-read_le 1 (flags_byte a b c) (omega arith) (ground arith))
      (Reads-reject _ _ small (
        Reads-reject _ _ refl (
          Reads-bind _ _ (write_uvarint (bits w.f.p) ++ write_uvarint (bits w.f.q)) _
            (Reads-read_fraction w.f identifier.fraction identifier.num_pos identifier.den_pos
              identifier.num_max identifier.den_max)
            (Reads-bind _ _ (write_sn w.sn) _
              (subst (λ x. Reads (read_sn x) (write_sn w.sn) w.sn) (sym is_a)
                (Reads-read_sn w.sn sn))
              (Reads-bind _ _ (if is_default_path w.sc then [] else write_path w.sc none) _
                (subst
                  (λ x.
                    Reads (read_sc limits none x)
                      (if is_default_path w.sc then [] else write_path w.sc none) w.sc)
                  (sym is_b)
                  (Reads-read_sc limits w.sc digits identifier.path_nonempty identifier.depth len))
                (Reads-bind _ _ (if c then to_le 16 w.site else []) []
                  (subst
                    (λ x.
                      Reads (read_site (origin context) x) (if c then to_le 16 w.site else [])
                        w.site)
                    (sym is_c)
                    (Reads-read_site context w.site site
                      (λ e. omega (arith, e, identifier.site_nonzero))))
                  (Reads-accept limits w identifier)))))))

-- `write_weight` in an operation's context lays out exactly these bytes.
write_weight-fields :
    (w : Weight) (context : ℕ)
    → write_weight w context
      ≡ some (
          to_le 1 (
            flags_byte
              (not (eqb_ℤ w.sn (pos 0)))
              (not (is_default_path w.sc))
              (inlines (origin context) w.site))
          ++ fields w context)
unfolding write_weight write_weight_parts write_body write_site fields
write_weight-fields w context =
    let (small, is_a, is_b, is_c, byte) =
      flags-bits (not (eqb_ℤ w.sn (pos 0))) (not (is_default_path w.sc))
        (inlines (origin context) w.site) in
    rw byte (ap some (simp (append_assoc, append-nil)))

some-injective : {A : Type 0} (a b : A) → ◌≡◌ {A = Option A} (some a) (some b) → a ≡ b
some-injective a b h = cc

-- If a document identifier is within the depth limit and its parts fit their types, then it is
-- read back from the bytes that `write_weight` makes of it, whatever follows them, from any offset
-- at which `usize` holds the end of the bytes plus 16.
pub read_weight-write_weight :
    (limits : ResourceLimits) (w : Weight) (context : ℕ) (bytes rest : List ℕ) (o : ℕ)
    → IsIdentifier (some limits.max_identifier_depth) w
    → IsI64 w.sn
    → AreDigits w.sc
    → w.site < 2 ^ 128
    → length w.sc < u64_limit
    → write_weight w context ≡ some bytes
    → o + length bytes + 16 < u64_limit
    → read_weight limits context (at o (bytes ++ rest)) ≡ ok (w, at (o + length bytes) rest)
read_weight-write_weight limits w context bytes rest o identifier sn digits site len written =
    subst
      (λ l.
        o + length l + 16 < u64_limit
        → read_weight limits context (at o (l ++ rest)) ≡ ok (w, at (o + length l) rest))
      (some-injective _ _ (sym (write_weight-fields w context) ∙ written))
      ((Reads-fields limits w context identifier sn digits site len).reads o rest)
