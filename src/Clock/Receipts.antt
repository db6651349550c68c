-- ===== src/Clock/Receipts.antt =====
-- src/clock.rs: the operations of `Version`, seen as the set of receipts that it contains.
use esbt_web.Base.{
  ℕ, ◌≡◌, refl, ltb, leb, ◌==◌, if◌then◌else◌, ◌&&◌, ◌||◌, Bool, Bool-cases, ==_iff, inl, inr, some,
  false, List, [], ◌∷◌, arith,
}
use esbt_web.Base.OrdSet
use esbt_web.Base.OrdMap
use esbt_web.Base.OrdMap.{lookup-insert, lookup-Keyed, Keyed}
use esbt_web.Clock.{
  SiteVersion, Version, no_receipts, state_of, or_default, note, note_state, contains, represents,
  merge_state, merge_site, merge_sites, merge,
}
use esbt_web.Clock.Absorb.{note_state_old, represents-note_state, represents-merge_state}

-- What `note` leaves under a site, when it changes the table at all.
lookup-note :
    (site seq s : ℕ) (v : Version)
    → (seq == 0) ≡ false
    → OrdMap.lookup s (note site seq v).sites ≡ (
        if s == site
        then some (note_state (state_of site v.sites) seq)
        else OrdMap.lookup s v.sites)
unfolding note
lookup-note site seq s v e = elim (Bool-cases (leb seq (state_of site v.sites).contiguous)) [
  | inl old ↦
      rw (e, old)
        (ground (
          arith,
          old,
          note_state_old (state_of site v.sites) seq old,
          lookup-insert s site no_receipts v.sites,
        ))
  | inr new ↦
      rw (e, new)
        (ground (
          arith,
          lookup-insert s site (note_state (state_of site v.sites) seq) (or_default site v.sites),
          lookup-insert s site no_receipts v.sites,
        ))
]

note_zero : (site : ℕ) (v : Version) → note site 0 v ≡ v
unfolding note
note_zero site v = refl

-- After `note` a version contains the receipts that it contained and, if its sequence number is
-- not 0, the noted one, and no other.
pub contains-note :
    (site seq s q : ℕ) (v : Version)
    → contains s q (note site seq v) ≡ (contains s q v || (ltb 0 q && (s == site) && (q == seq)))
unfolding contains OrdSet.contains
contains-note site seq s q v = elim (Bool-cases (seq == 0)) [
  | inl zero_seq ↦ rw ((==_iff seq 0).0 zero_seq, note_zero) (ground arith)
  | inr some_seq ↦ ground (
    arith,
    represents-note_state (state_of site v.sites) seq q,
    lookup-note site seq s v some_seq,
  )
]

lookup-merge_site :
    (site : ℕ) (incoming : SiteVersion) (v : Version) (s : ℕ)
    → OrdMap.lookup s (merge_site site incoming v).sites ≡ (
        if s == site
        then some (merge_state (state_of site v.sites) incoming)
        else OrdMap.lookup s v.sites)
unfolding merge_site
lookup-merge_site site incoming v s =
    lookup-insert s site (merge_state (state_of site v.sites) incoming) v.sites

pub contains-merge_site :
    (site : ℕ) (incoming : SiteVersion) (v : Version) (s q : ℕ)
    → contains s q (merge_site site incoming v)
      ≡ (contains s q v || (ltb 0 q && (s == site) && represents incoming q))
unfolding contains OrdSet.contains
contains-merge_site site incoming v s q = ground (
  arith,
  represents-merge_state (state_of site v.sites) incoming q,
  lookup-merge_site site incoming v s,
)

-- The receipts of a list of sites: those of the first entry of each site.
abbrev pub within : ℕ → ℕ → List (ℕ × SiteVersion) → Bool
within s q m = contains s q (record { sites = m; sparse_count = 0 })

merge_sites-within :
    (b : ℕ) (m : List (ℕ × SiteVersion)) (v : Version) (s q : ℕ)
    → Keyed b m
    → contains s q (merge_sites m v) ≡ (contains s q v || within s q m)
unfolding merge_sites contains OrdMap.lookup
merge_sites-within b [] v s q k = ground arith
merge_sites-within b ((site, incoming) ∷ m) v s q k = ground (
  arith,
  merge_sites-within site m (merge_site site incoming v) s q k.1,
  contains-merge_site site incoming v s q,
  lookup-Keyed s site m k.1,
)

-- If the sites of the incoming version are nonzero and ascend, then a merged version contains
-- exactly the receipts that the version or the incoming one contains.
pub contains-merge :
    (v w : Version) (s q : ℕ)
    → Keyed 0 w.sites
    → contains s q (merge v w) ≡ (contains s q v || contains s q w)
unfolding merge contains
contains-merge v w s q k = unfold contains in merge_sites-within 0 w.sites v s q k
