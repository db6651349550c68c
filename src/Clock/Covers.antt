-- ===== src/Clock/Covers.antt =====
-- src/clock.rs: `covers` decides whether every receipt of one summary is contained in another.
use esbt_web.Base.{
  ℕ, ◌+◌, ◌<◌, ◌≤◌, ◌≡◌, ◌↔◌, refl, ltb, ◌==◌, ◌&&◌, Bool-cases, Option-cases, ==_iff, ==_refl, inl,
  inr, some, true, false, List, [], ◌∷◌, arith,
}
use esbt_web.Base.OrdSet
use esbt_web.Base.OrdSet.{Above}
use esbt_web.Base.OrdMap
use esbt_web.Base.OrdMap.{Keyed, lookup-Keyed}
use esbt_web.Clock.{
  SiteVersion, Version, contains, represents, merge, covers, covers_sites, covers_site,
  contains_all,
}
use esbt_web.Clock.Canonical.{
  merge-IsWellFormed, IsSite, AreSites, IsWellFormed, witness, nonempty, state_of-IsCanonical,
}
use esbt_web.Clock.Receipts.{within, contains-merge}

-- Where a list of sites has its receipts: under the first entry, or further down.
first_within :
    (s q site : ℕ) (t : SiteVersion) (m : List (ℕ × SiteVersion))
    → (s == site) ≡ true
    → within s q ((site, t) ∷ m) ≡ (ltb 0 q && represents t q)
unfolding contains OrdMap.lookup
first_within s q site t m e = ground arith

later_within :
    (s q site : ℕ) (t : SiteVersion) (m : List (ℕ × SiteVersion))
    → (s == site) ≡ false
    → within s q ((site, t) ∷ m) ≡ within s q m
unfolding contains OrdMap.lookup
later_within s q site t m e = ground arith

later_key :
    (s q site : ℕ) (m : List (ℕ × SiteVersion))
    → Keyed site m
    → within s q m ≡ true
    → (s == site) ≡ false
unfolding contains
later_key s q site m k r = ground (arith, OrdMap.lookup-Keyed s site m k)

contains_all→contains :
    (v : Version) (site : ℕ) (l : List ℕ) (q : ℕ)
    → contains_all v site l ≡ true
    → OrdSet.contains q l ≡ true
    → contains site q v ≡ true
unfolding contains_all OrdSet.contains
contains_all→contains v site [] q h m = cc
contains_all→contains v site (x ∷ l) q h m = ground (arith, contains_all→contains v site l q)

contains→contains_all :
    (v : Version) (site b : ℕ) (l : List ℕ)
    → Above b l
    → ((q : ℕ) → 0 < q → OrdSet.contains q l ≡ true → contains site q v ≡ true)
    → contains_all v site l ≡ true
unfolding contains_all
contains→contains_all v site b [] a h = refl
contains→contains_all v site b (x ∷ l) a h =
    let rest =
      contains→contains_all v site x l a.2
        (λ q p m. h q p (unfold OrdSet.contains in ground (arith, m))) in
    let first = h x (omega arith) (unfold OrdSet.contains in ground arith) in
    ground (arith, rest, first)

-- A covered site's receipts are contained.
covers_site→contains :
    (v : Version) (site : ℕ) (t : SiteVersion) (q : ℕ)
    → covers_site v site t ≡ true
    → 0 < q
    → represents t q ≡ true
    → contains site q v ≡ true
unfolding covers_site contains
covers_site→contains v site t q h p r =
    ground (arith, nonempty t q p r, contains_all→contains v site t.seen_after q)

module _ (v : Version) (site : ℕ) (t : SiteVersion) (wf : IsWellFormed v) (ht : IsSite t)
    (h : (q : ℕ) → 0 < q → represents t q ≡ true → contains site q v ≡ true) where
  -- The prefix is no longer than that of the site's own summary, which is canonical.
  prefix_covered :
      (s : SiteVersion) → OrdMap.lookup site v.sites ≡ some s → t.contiguous ≤ s.contiguous
  unfolding contains
  prefix_covered s found =
      let canonical : Above (s.contiguous + 1) s.seen_after =
        rw found at (state_of-IsCanonical site v.sites wf.entries).0 in
      ground (
        arith,
        h (s.contiguous + 1),
        found,
        OrdSet.contains-Above (s.contiguous + 1) (s.contiguous + 1) s.seen_after canonical,
      )

  members_covered : contains_all v site t.seen_after ≡ true
  members_covered =
      contains→contains_all v site (t.contiguous + 1) t.seen_after ht.0
        (λ q p m. h q p (ground (arith, m)))

  contains→covers_site : covers_site v site t ≡ true
  unfolding covers_site
  contains→covers_site = elim (Option-cases (OrdMap.lookup site v.sites)) [
    | inl missing ↦
        let (q, p, r) = witness t ht in unfold contains in ground (arith, h q p r, missing)
    | inr (s, found) ↦
        rw (found, covers_site) (ground (arith, prefix_covered s found, members_covered))
  ]

covers_sites→contains :
    (v : Version) (m : List (ℕ × SiteVersion)) (s q : ℕ)
    → covers_sites v m ≡ true
    → within s q m ≡ true
    → contains s q v ≡ true
unfolding covers_sites
covers_sites→contains v [] s q h r = unfold contains OrdMap.lookup in ground arith
covers_sites→contains v ((site, t) ∷ m) s q h r = elim (Bool-cases (s == site)) [
  | inl same ↦
      let r' : (ltb 0 q && represents t q) ≡ true = rw (first_within s q site t m same) at r in
      let covered = covers_site→contains v site t q (ground arith) (ground arith) (ground arith) in
      rw ((==_iff s site).0 same) covered
  | inr other ↦
      covers_sites→contains v m s q (ground arith) (rw (later_within s q site t m other) at r)
]

contains→covers_sites :
    (v : Version) (b : ℕ) (m : List (ℕ × SiteVersion))
    → IsWellFormed v
    → Keyed b m
    → AreSites m
    → ((s q : ℕ) → within s q m ≡ true → contains s q v ≡ true)
    → covers_sites v m ≡ true
unfolding covers_sites
contains→covers_sites v b [] wf k a h = refl
contains→covers_sites v b ((site, t) ∷ m) wf k a h =
    let first =
      contains→covers_site v site t wf a.0
        λ q p r. h site q (rw (first_within site q site t m (==_refl site)) (ground arith)) in
    let rest =
      contains→covers_sites v site m wf k.1 a.1
        λ s q r. h s q (rw (later_within s q site t m (later_key s q site m k.1 r)) r) in
    ground (arith, first, rest)

-- For two well-formed versions (sites nonzero and ascending, each with a canonical entry that is
-- not empty and within `u64`, the cached count right), `covers` answers true exactly if every
-- receipt that the second one contains is contained in the first.
pub covers_iff :
    (v w : Version)
    → IsWellFormed v
    → IsWellFormed w
    → (covers v w ≡ true) ↔ ((s q : ℕ) → contains s q w ≡ true → contains s q v ≡ true)
unfolding covers
covers_iff v w a b = (
  λ h s q r. covers_sites→contains v w.sites s q h (unfold contains in r),
  λ h.
      contains→covers_sites v 0 w.sites a b.ascending b.entries
        (λ s q r. h s q (unfold contains in r)),
)

-- A merge covers both of its arguments.
pub covers-merge :
    (v w : Version)
    → IsWellFormed v
    → IsWellFormed w
    → (covers (merge v w) v ≡ true) × (covers (merge v w) w ≡ true)
covers-merge v w a b =
    let m = merge-IsWellFormed v w a b in
    (
      (covers_iff (merge v w) v m a).1
          (λ s q r. ground (arith, contains-merge v w s q b.ascending)),
      (covers_iff (merge v w) w m b).1
          (λ s q r. ground (arith, contains-merge v w s q b.ascending)),
    )
