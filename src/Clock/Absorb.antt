-- ===== src/Clock/Absorb.antt =====
-- src/clock.rs: closing up a prefix loses and invents no receipt, and leaves a canonical summary.
use esbt_web.Base.{
  ℕ, zero, suc, ◌+◌, ◌<◌, ◌≤◌, max, ◌≡◌, refl, u64_limit, ◌==◌, true, ◌||◌, List, [], ◌∷◌, length,
  leb, arith,
}
use esbt_web.Base.OrdSet
use esbt_web.Base.OrdSet.{Above}
use esbt_web.Clock.{SiteVersion, absorb, note_state, merge_state, represents}

-- A canonical summary: the set ascends, and its numbers are above the one that would extend the
-- prefix.
abbrev pub IsCanonical : SiteVersion → Type 0
IsCanonical s = Above (s.contiguous + 1) s.seen_after

pub represents-absorb :
    (fuel c : ℕ) (l : List ℕ) (q : ℕ)
    → represents (absorb fuel c l) q ≡ (leb q c || OrdSet.contains q l)
unfolding absorb
represents-absorb zero c l q = refl
represents-absorb (suc fuel) c l q = ground (
  arith,
  represents-absorb fuel (c + 1) (OrdSet.remove (c + 1) l) q,
  OrdSet.contains-remove q (c + 1) l,
)

pub absorb-IsCanonical :
    (fuel c : ℕ) (l : List ℕ) → Above c l → length l ≤ fuel → IsCanonical (absorb fuel c l)
unfolding absorb OrdSet.contains OrdSet.remove
absorb-IsCanonical zero c [] a h = tt
absorb-IsCanonical zero c (x ∷ l) a h = absurd (omega arith)
absorb-IsCanonical (suc fuel) c [] a h = ground arith
absorb-IsCanonical (suc fuel) c (x ∷ l) a h = ground (
  arith,
  absorb-IsCanonical fuel (c + 1) l,
  OrdSet.contains-Above (c + 1) x l a.2,
  OrdSet.remove-Above_self x (c + 1) l a.2,
)

-- The prefix never shrinks.
pub absorb_grows : (fuel c : ℕ) (l : List ℕ) → c ≤ (absorb fuel c l).contiguous
unfolding absorb
absorb_grows zero c l = omega arith
absorb_grows (suc fuel) c l = ground (arith, absorb_grows fuel (c + 1) (OrdSet.remove (c + 1) l))

pub absorb-u64 :
    (fuel c : ℕ) (l : List ℕ) → c < u64_limit → (absorb fuel c l).contiguous < u64_limit
unfolding absorb
absorb-u64 zero c l h = h
absorb-u64 (suc fuel) c l h = ground (arith, absorb-u64 fuel (c + 1) (OrdSet.remove (c + 1) l))

-- After `note_state` the summary represents what it did, and `seq`.
pub represents-note_state :
    (s : SiteVersion) (seq q : ℕ)
    → 0 < q
    → represents (note_state s seq) q ≡ (represents s q || (q == seq))
unfolding note_state
represents-note_state s seq q h = ground (
  arith,
  represents-absorb (length s.seen_after) seq s.seen_after q,
  OrdSet.contains-insert q seq s.seen_after,
)

pub note_state_old :
    (s : SiteVersion) (seq : ℕ) → leb seq s.contiguous ≡ true → note_state s seq ≡ s
unfolding note_state
note_state_old s seq h = ground arith

pub note_state-IsCanonical :
    (s : SiteVersion) (seq : ℕ) → IsCanonical s → seq < u64_limit → IsCanonical (note_state s seq)
unfolding note_state
note_state-IsCanonical s seq a u = ground (
  arith,
  absorb-IsCanonical (length s.seen_after) seq s.seen_after,
  OrdSet.Above-weaken (s.contiguous + 1) seq s.seen_after,
  OrdSet.insert-Above (s.contiguous + 1) seq s.seen_after a,
)

-- The merged summary represents what either side does.
pub represents-merge_state :
    (s t : SiteVersion) (q : ℕ)
    → represents (merge_state s t) q ≡ (represents s q || represents t q)
unfolding merge_state
represents-merge_state s t q =
    let c = max s.contiguous t.contiguous in
    let all = OrdSet.extend s.seen_after t.seen_after in
    ground (
      arith,
      represents-absorb (length (OrdSet.retain_above c all)) c (OrdSet.retain_above c all) q,
      OrdSet.contains-retain_above q c all,
      OrdSet.contains-extend q s.seen_after t.seen_after,
    )

pub merge_state-IsCanonical :
    (s t : SiteVersion) → IsCanonical s → IsCanonical t → IsCanonical (merge_state s t)
unfolding merge_state
merge_state-IsCanonical s t a b =
    let c = max s.contiguous t.contiguous in
    let all = OrdSet.extend s.seen_after t.seen_after in
    let sorted =
      OrdSet.extend-Above 0 s.seen_after t.seen_after (OrdSet.Above-weaken _ 0 _ (omega arith) a)
        (OrdSet.Above-weaken _ 0 _ (omega arith) b) in
    absorb-IsCanonical _ c (OrdSet.retain_above c all) (OrdSet.retain_above-Above 0 c all sorted)
      (omega arith)

module _ (s t : SiteVersion) (a : IsCanonical s) (b : IsCanonical t)
    (h : (q : ℕ) → represents s q ≡ represents t q) where
  same_prefix : s.contiguous ≡ t.contiguous
  same_prefix = ground (
    arith,
    h s.contiguous,
    h (s.contiguous + 1),
    h t.contiguous,
    h (t.contiguous + 1),
    OrdSet.contains-Above (s.contiguous + 1) (s.contiguous + 1) s.seen_after a,
    OrdSet.contains-Above (t.contiguous + 1) (t.contiguous + 1) t.seen_after b,
  )

  same_members :
      s.contiguous ≡ t.contiguous
      → (q : ℕ) → OrdSet.contains q s.seen_after ≡ OrdSet.contains q t.seen_after
  same_members e q = ground (
    arith,
    h q,
    OrdSet.contains-Above q (s.contiguous + 1) s.seen_after a,
    OrdSet.contains-Above q (t.contiguous + 1) t.seen_after b,
  )

-- Canonical summaries that represent the same receipts are the same.
pub IsCanonical-unique :
    (s t : SiteVersion)
    → IsCanonical s
    → IsCanonical t
    → ((q : ℕ) → represents s q ≡ represents t q)
    → s ≡ t
IsCanonical-unique s t a b h =
    let e = same_prefix s t a b h in
    let b' : Above (s.contiguous + 1) t.seen_after =
      OrdSet.Above-weaken _ _ _ (omega (arith, e)) b in
    let e' = OrdSet.Above-unique _ s.seen_after t.seen_after a b' (same_members s t a b h e) in
    λ i. record { contiguous = e i; seen_after = e' i }
