-- ===== src/Examples/Clock.antt =====
-- src/clock.rs at two summaries: site 1 has sent 1, 2 and 5 to the one, and 1 to 4 to the other.
use esbt_web.Base.{ℕ, ◌≡◌, ◌≢◌, ◌↔◌, refl, true, ◌&&◌, ◌||◌, [], ◌∷◌, ltb, ◌==◌, arith}
use esbt_web.Base.OrdSet
use esbt_web.Base.OrdMap
use esbt_web.Error.{ok}
use esbt_web.Codec.Reader.{to_le}
use esbt_web.Limits.{wire_default}
use esbt_web.Clock.{
  Version, absorb, note, merge_state, merge_site, merge_sites, merge, contains, covers,
}
use esbt_web.Clock.Canonical.{IsWellFormed, note-IsWellFormed, merge-IsWellFormed}
use esbt_web.Clock.Receipts.{contains-note, contains-merge}
use esbt_web.Clock.Algebra.{merge_comm, merge_assoc}
use esbt_web.Clock.Covers.{covers_iff}
use esbt_web.Clock.Payload.{encode_payload, decode_payload, write_sites, write_receipts}
use esbt_web.Clock.Payload.RoundTrip.{Fits, decode_payload-encode_payload}

abbrev gapped : Version
gapped = record {
  sites =
      (1, record { contiguous = 2; seen_after = 5 ∷ [] })
      ∷ (7, record { contiguous = 0; seen_after = 3 ∷ [] })
      ∷ [];
  sparse_count = 2;
}

abbrev solid : Version
solid = record { sites = (1, record { contiguous = 4; seen_after = [] }) ∷ []; sparse_count = 0 }

gapped-IsWellFormed : IsWellFormed gapped
gapped-IsWellFormed = record {
  ascending = (omega arith, (omega arith, tt));
  entries = (
    ((omega arith, omega arith, tt), omega arith, omega arith),
    (((omega arith, omega arith, tt), omega arith, omega arith), tt),
  );
  counted = refl;
}

solid-IsWellFormed : IsWellFormed solid
solid-IsWellFormed = record {
  ascending = (omega arith, tt);
  entries = ((tt, omega arith, omega arith), tt);
  counted = refl;
}

-- The gap at 3 and 4 closes.
merge_test :
    (merge gapped solid).sites
    ≡ (1, record { contiguous = 5; seen_after = [] })
      ∷ (7, record { contiguous = 0; seen_after = 3 ∷ [] })
      ∷ []
unfolding merge merge_sites merge_site merge_state absorb OrdMap.lookup OrdMap.insert OrdSet.extend
    OrdSet.retain_above OrdSet.contains OrdSet.remove OrdSet.insert
merge_test = refl

contains-note_example :
    contains 1 4 (note 1 3 gapped) ≡ (contains 1 4 gapped || (ltb 0 4 && (1 == 1) && (4 == 3)))
contains-note_example = contains-note 1 3 1 4 gapped

contains-merge_example :
    contains 1 3 (merge gapped solid) ≡ (contains 1 3 gapped || contains 1 3 solid)
contains-merge_example = contains-merge gapped solid 1 3 solid-IsWellFormed.ascending

note-IsWellFormed_example : IsWellFormed (note 1 3 gapped)
note-IsWellFormed_example =
    note-IsWellFormed 1 3 gapped gapped-IsWellFormed (omega arith) (omega arith)

merge-IsWellFormed_example : IsWellFormed (merge gapped solid)
merge-IsWellFormed_example = merge-IsWellFormed gapped solid gapped-IsWellFormed solid-IsWellFormed

merge_comm_example : merge gapped solid ≡ merge solid gapped
merge_comm_example = merge_comm gapped solid gapped-IsWellFormed solid-IsWellFormed

merge_assoc_example : merge (merge gapped solid) gapped ≡ merge gapped (merge solid gapped)
merge_assoc_example =
    merge_assoc gapped solid gapped gapped-IsWellFormed solid-IsWellFormed gapped-IsWellFormed

covers_iff_example :
    (covers gapped solid ≡ true)
    ↔ ((s q : ℕ) → contains s q solid ≡ true → contains s q gapped ≡ true)
covers_iff_example = covers_iff gapped solid gapped-IsWellFormed solid-IsWellFormed

-- Site 1 goes back from 4 to its checkpoint.
abbrev advanced : Version
advanced = record {
  sites =
      (1, record { contiguous = 4; seen_after = [] })
      ∷ (7, record { contiguous = 0; seen_after = 3 ∷ [] })
      ∷ [];
  sparse_count = 1;
}

advanced-IsWellFormed : IsWellFormed advanced
advanced-IsWellFormed = record {
  ascending = (omega arith, (omega arith, tt));
  entries = (
    (tt, omega arith, omega arith),
    (((omega arith, omega arith, tt), omega arith, omega arith), tt),
  );
  counted = refl;
}

elsewhere : (s q : ℕ) → s ≢ 1 → contains s q advanced ≡ contains s q gapped
unfolding contains OrdMap.lookup
elsewhere s q h = ground (arith, h)

gapped-Fits : Fits wire_default gapped
unfolding encode_payload write_sites write_receipts to_le
gapped-Fits = record {
  fields = (omega arith, omega arith, (omega arith, omega arith, tt));
  site_count = omega arith;
  sites_within = omega arith;
  receipts_within = omega arith;
  receipts_u64 = omega arith;
  message_within = omega arith;
  message_u64 = omega arith;
}

decode_payload-encode_payload_example :
    decode_payload wire_default (encode_payload gapped) ≡ ok gapped
decode_payload-encode_payload_example =
    decode_payload-encode_payload wire_default gapped gapped-IsWellFormed gapped-Fits
