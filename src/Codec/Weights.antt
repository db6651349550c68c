-- ===== src/Codec/Weights.antt =====
-- src/codec.rs: the compact weight codec. Default paths, zero sequence numbers and the site of the
-- surrounding operation are left out; container paths are front-coded.
pub mod Parts
pub mod RoundTrip
use esbt_web.Base.{
  ℕ, zero, suc, ◌+◌, ◌-◌, ◌/◌, ◌%◌, min, Bool, true, false, not, ◌&&◌, ◌||◌, Option, none, some,
  List, [], ◌∷◌, ◌++◌, length, take, drop, get_elem?, ltb, leb, ◌==◌, if◌then◌else◌, u64_limit,
}
use esbt_web.Base.Int.{ℤ, pos, eqb_ℤ}
use esbt_web.Error.{
  ok, err, integer_overflow, malformed_encoding, non_canonical_encoding, invalid_operation,
  identifier_too_deep, Result,
}
use esbt_web.Limits.{ResourceLimits}
use esbt_web.Fraction
use esbt_web.Fraction.{Fraction}
use esbt_web.Weight
use esbt_web.Weight.{Weight, validate_document_identifier}
use esbt_web.Codec.Reader.{
  Read, Reader, ◌>>=◌, ◌>>◌, pure, fail, reject, remaining, u8, u128, to_le,
}
use esbt_web.Codec.Varint.{
  uvarint, write_uvarint, uvarint_len, ivarint, write_ivarint, zigzag, bits,
}

-- `SiteContext`.
pub data SiteContext : Type 0 where
  origin : ℕ → SiteContext
  table : List ℕ → SiteContext

unfoldable pub is_default_path : List ℕ → Bool
is_default_path [] = false
is_default_path (d ∷ []) = d == 0
is_default_path (d ∷ e ∷ ds) = false

unfoldable pub longest_common_prefix : List ℕ → List ℕ → ℕ
longest_common_prefix [] b = 0
longest_common_prefix (x ∷ a) [] = 0
longest_common_prefix (x ∷ a) (y ∷ b) = if x == y then longest_common_prefix a b + 1 else 0

abbrev pub bit : Bool → ℕ → ℕ
bit true n = n
bit false n = 0

abbrev pub inlines : SiteContext → ℕ → Bool
inlines (origin context) site = (context == 0) || not (site == context)
inlines (table sites) site = false

-- The flags byte: `FLAG_SN_PRESENT`, `FLAG_SC_PRESENT` and `FLAG_SITE_INLINE`.
abbrev pub flags_byte : Bool → Bool → Bool → ℕ
flags_byte sn sc site = bit sn 1 + bit sc 2 + bit site 4

unfoldable pub write_digits : List ℕ → List ℕ
write_digits [] = []
write_digits (d ∷ ds) = write_uvarint d ++ write_digits ds

abbrev pub write_sn : ℤ → List ℕ
write_sn sn = if eqb_ℤ sn (pos 0) then [] else write_ivarint sn

-- The explicit path: front-coded against a shared prefix, or self-contained.
unfoldable pub write_path : List ℕ → Option ℕ → List ℕ
unfolding write_digits
write_path sc (some shared) =
    write_uvarint shared ++ write_uvarint (length sc - shared) ++ write_digits (drop shared sc)
write_path sc none = write_uvarint (length sc) ++ write_digits sc

-- `table.binary_search(&site)` in a sorted table of distinct sites.
unfoldable pub position : ℕ → List ℕ → Option ℕ
position site [] = none
position site (s ∷ ss) =
    if site == s then some 0 else elim (position site ss) [ none ↦ none | some i ↦ some (i + 1) ]

-- The site's bytes. `none` is the panic of `expect` on a table that lacks the site.
unfoldable pub write_site : SiteContext → ℕ → Option (List ℕ)
write_site (origin context) site =
    some (if inlines (origin context) site then to_le 16 site else [])
write_site (table sites) site = elim (position site sites) [
  | none ↦ none
  | some index ↦ some (write_uvarint index)
]

-- `write_weight_parts`, less the site that ends it.
unfoldable pub write_body : Weight → SiteContext → Option ℕ → List ℕ
unfolding is_default_path write_path
write_body w site shared =
    flags_byte (not (eqb_ℤ w.sn (pos 0))) (not (is_default_path w.sc)) (inlines site w.site)
    ∷ (write_uvarint (bits w.f.p)
        ++ (write_uvarint (bits w.f.q)
            ++ (write_sn w.sn ++ (if is_default_path w.sc then [] else write_path w.sc shared))))

unfoldable pub write_weight_parts : Weight → SiteContext → Option ℕ → Option (List ℕ)
unfolding write_body write_site
write_weight_parts w site shared = elim (write_site site w.site) [
  | none ↦ none
  | some bytes ↦ some (write_body w site shared ++ bytes)
]

-- `check_path_budget`.
unfoldable pub check_path_budget : ResourceLimits → ℕ → ℕ → Read (Unit {0})
check_path_budget limits total wire_digits = do
  reject (ltb limits.max_identifier_depth total) identifier_too_deep
  left ← remaining
  reject (ltb left wire_digits) malformed_encoding

-- The loop over the digits on the wire.
unfoldable pub read_digits : ℕ → Read (List ℕ)
read_digits zero = pure []
read_digits (suc n) = do
  digit ← uvarint
  reject (ltb 0xffff_ffff digit) malformed_encoding
  digits ← read_digits n
  pure (digit ∷ digits)

unfoldable pub read_fraction : Read Fraction
read_fraction = do
  p ← uvarint
  q ← uvarint
  reject ((p == 0) || (q == 0) || ltb 0x7fff_ffff_ffff_ffff p || ltb 0x7fff_ffff_ffff_ffff q)
      non_canonical_encoding
  reject (not (Fraction.eqb (Fraction.new (pos p) (pos q)) (record { p = pos p; q = pos q })))
      non_canonical_encoding
  pure (Fraction.new (pos p) (pos q))

unfoldable pub read_sn : Bool → Read ℤ
read_sn false = pure (pos 0)
read_sn true = do sn ← ivarint; reject (eqb_ℤ sn (pos 0)) non_canonical_encoding; pure sn

-- The explicit path, with the container's previous path or without.
unfoldable pub read_path : ResourceLimits → Option (List ℕ) → Read (List ℕ)
unfolding check_path_budget read_digits longest_common_prefix
read_path limits (some previous) = do
  shared ← uvarint
  suffix ← uvarint
  reject (leb u64_limit (shared + suffix)) integer_overflow
  reject (ltb (length previous) shared || (shared + suffix == 0)) non_canonical_encoding
  check_path_budget limits (shared + suffix) suffix
  digits ← read_digits suffix
  let sc = take shared previous ++ digits
  reject (not (shared == min (longest_common_prefix previous sc) (shared + suffix)))
      non_canonical_encoding
  pure sc
read_path limits none = do
  total ← uvarint
  reject (total == 0) non_canonical_encoding
  check_path_budget limits total total
  read_digits total

unfoldable pub read_sc : ResourceLimits → Option (List ℕ) → Bool → Read (List ℕ)
unfolding read_path is_default_path
read_sc limits previous false = pure (0 ∷ [])
read_sc limits previous true = do
  sc ← read_path limits previous
  reject (is_default_path sc) non_canonical_encoding
  pure sc

unfoldable pub read_site : SiteContext → Bool → Read ℕ
read_site (origin context) true = do
  site ← u128
  reject ((site == 0) || (site == context)) non_canonical_encoding
  pure site
read_site (origin context) false = do reject (context == 0) invalid_operation; pure context
read_site (table sites) inline = do
  index ← uvarint
  elim (get_elem? sites index) [ none ↦ fail malformed_encoding | some site ↦ pure site ]

abbrev pub lift : Result (Unit {0}) → Read (Unit {0})
lift (ok _) = pure tt
lift (err e) = fail e

abbrev pub is_table : SiteContext → Bool
is_table (origin context) = false
is_table (table sites) = true

unfoldable pub read_weight_parts : ResourceLimits → SiteContext → Option (List ℕ) → Read Weight
unfolding read_fraction read_sn read_sc read_site
read_weight_parts limits site previous = do
  flags ← u8
  reject (leb 8 flags) non_canonical_encoding
  reject (is_table site && (flags / 4 % 2 == 1)) non_canonical_encoding
  f ← read_fraction
  sn ← read_sn (flags % 2 == 1)
  sc ← read_sc limits previous (flags / 2 % 2 == 1)
  owner ← read_site site (flags / 4 % 2 == 1)
  let weight = Weight.new f sn sc owner
  lift (validate_document_identifier (some limits.max_identifier_depth) weight)
  pure weight

-- `write_weight` and `read_weight`: a self-contained weight in the context of its operation.
unfoldable pub write_weight : Weight → ℕ → Option (List ℕ)
unfolding write_weight_parts
write_weight w context = write_weight_parts w (origin context) none

unfoldable pub read_weight : ResourceLimits → ℕ → Read Weight
unfolding read_weight_parts
read_weight limits context = read_weight_parts limits (origin context) none

digits_len : List ℕ → ℕ
digits_len [] = 0
digits_len (d ∷ ds) = uvarint_len d + digits_len ds

-- `encoded_weight_len`.
unfoldable pub encoded_weight_len : Weight → ℕ → ℕ
unfolding digits_len is_default_path
encoded_weight_len w context =
    1
    + uvarint_len (bits w.f.p)
    + uvarint_len (bits w.f.q)
    + (if eqb_ℤ w.sn (pos 0) then 0 else uvarint_len (zigzag w.sn))
    + (if is_default_path w.sc then 0 else uvarint_len (length w.sc) + digits_len w.sc)
    + (if (context == 0) || not (w.site == context) then 16 else 0)
