-- ===== src/Clock/Canonical.antt =====
-- src/clock.rs: the invariant of `Version`. Each site stands once, with a canonical summary that is
-- not empty, and the count of sparse receipts is right.
use esbt_web.Base.{
  ℕ, zero, suc, ◌+◌, ◌-◌, ◌<◌, ◌≤◌, max, ◌≡◌, refl, ltb, leb, ◌==◌, ◌||◌, Bool-cases, Option-cases,
  inl, inr, true, false, List, [], ◌∷◌, length, u64_limit, arith,
}
use esbt_web.Base.OrdSet
use esbt_web.Base.OrdSet.{Above}
use esbt_web.Base.OrdMap
use esbt_web.Base.OrdMap.{Keyed}
use esbt_web.Clock.{
  SiteVersion, Version, no_receipts, empty, state_of, or_default, note, note_state, represents,
  merge_state, merge_site, merge_sites, merge,
}
use esbt_web.Clock.Absorb.{
  IsCanonical, absorb-u64, represents-note_state, represents-merge_state, note_state-IsCanonical,
  merge_state-IsCanonical,
}

-- What a site's entry satisfies.
abbrev pub IsSite : SiteVersion → Type 0
IsSite s = IsCanonical s × (s.contiguous < u64_limit) × (0 < s.contiguous + length s.seen_after)

abbrev pub AreSites : List (ℕ × SiteVersion) → Type 0
AreSites [] = Unit
AreSites ((k, s) ∷ m) = IsSite s × AreSites m

-- The sparse receipts of all sites.
abbrev pub sparse_total : List (ℕ × SiteVersion) → ℕ
sparse_total [] = 0
sparse_total ((k, s) ∷ m) = length s.seen_after + sparse_total m

pub record IsWellFormed (v : Version) : Type 0 where
  pub ascending : Keyed 0 v.sites
  pub entries : AreSites v.sites
  pub counted : v.sparse_count ≡ sparse_total v.sites

pub empty-IsWellFormed : IsWellFormed empty
empty-IsWellFormed = record { ascending = tt; entries = tt; counted = refl }

pub insert-AreSites :
    (k : ℕ) (s : SiteVersion) (m : List (ℕ × SiteVersion))
    → AreSites m
    → IsSite s
    → AreSites (OrdMap.insert k s m)
unfolding OrdMap.insert
insert-AreSites k s [] a h = (h, tt)
insert-AreSites k s ((j, t) ∷ m) a h = elim (Bool-cases (ltb k j)) [
  | inl lower ↦ rw lower (h, a)
  | inr other ↦ elim (Bool-cases (k == j)) [
    | inl same ↦ rw (other, same) (h, a.1)
    | inr higher ↦ rw (other, higher) (a.0, insert-AreSites k s m a.1 h)
  ]
]

-- Replacing a site's entry exchanges its sparse receipts in the total.
pub sparse_total-insert :
    (k b : ℕ) (s : SiteVersion) (m : List (ℕ × SiteVersion))
    → Keyed b m
    → sparse_total (OrdMap.insert k s m) + length (state_of k m).seen_after
      ≡ sparse_total m + length s.seen_after
unfolding OrdMap.insert OrdMap.lookup
sparse_total-insert k b s [] a = omega arith
sparse_total-insert k b s ((j, t) ∷ m) a =
    ground (arith, sparse_total-insert k j s m a.1, OrdMap.lookup-Keyed k j m a.1)

pub state_of-le :
    (k : ℕ) (m : List (ℕ × SiteVersion)) → length (state_of k m).seen_after ≤ sparse_total m
unfolding OrdMap.lookup
state_of-le k [] = omega arith
state_of-le k ((j, s) ∷ m) = ground (arith, state_of-le k m)

pub state_of-IsCanonical :
    (k : ℕ) (m : List (ℕ × SiteVersion))
    → AreSites m
    → IsCanonical (state_of k m) × ((state_of k m).contiguous < u64_limit)
unfolding OrdMap.lookup
state_of-IsCanonical k [] a = (tt, omega arith)
state_of-IsCanonical k ((j, s) ∷ m) a = elim (Bool-cases (k == j)) [
  | inl same ↦ rw same (a.0.0, a.0.1)
  | inr other ↦ rw other (state_of-IsCanonical k m a.1)
]

-- A summary that represents a receipt other than 0 is not empty.
nonempty_parts :
    (c : ℕ) (l : List ℕ) (q : ℕ)
    → 0 < q
    → (leb q c || OrdSet.contains q l) ≡ true
    → 0 < c + length l
unfolding OrdSet.contains
nonempty_parts c [] q h r = ground arith
nonempty_parts c (x ∷ l) q h r = omega arith

pub nonempty :
    (s : SiteVersion) (q : ℕ)
    → 0 < q
    → represents s q ≡ true
    → 0 < s.contiguous + length s.seen_after
nonempty s q h r = nonempty_parts s.contiguous s.seen_after q h r

-- And one that is not empty represents some receipt other than 0.
witness_parts :
    (c : ℕ) (l : List ℕ)
    → Above (c + 1) l
    → 0 < c + length l
    → (q : ℕ) × (0 < q) × ((leb q c || OrdSet.contains q l) ≡ true)
unfolding OrdSet.contains
witness_parts zero [] a h = absurd (omega arith)
witness_parts (suc c) [] a h = (suc c, omega arith, ground arith)
witness_parts c (x ∷ l) a h = (x, omega arith, ground arith)

pub witness : (s : SiteVersion) → IsSite s → (q : ℕ) × (0 < q) × (represents s q ≡ true)
witness s h = witness_parts s.contiguous s.seen_after h.0 h.2

note_state-u64 :
    (s : SiteVersion) (seq : ℕ)
    → s.contiguous < u64_limit
    → seq < u64_limit
    → (note_state s seq).contiguous < u64_limit
unfolding note_state
note_state-u64 s seq h u = ground (arith, absorb-u64 (length s.seen_after) seq s.seen_after u)

merge_state-u64 :
    (s t : SiteVersion)
    → s.contiguous < u64_limit
    → t.contiguous < u64_limit
    → (merge_state s t).contiguous < u64_limit
unfolding merge_state
merge_state-u64 s t h u = absorb-u64 _ (max s.contiguous t.contiguous) _ (omega arith)

-- `note_state` turns any canonical summary, the empty one too, into one that may stand in a version.
note_state-IsSite :
    (s : SiteVersion) (seq : ℕ)
    → IsCanonical s
    → s.contiguous < u64_limit
    → 0 < seq
    → seq < u64_limit
    → IsSite (note_state s seq)
note_state-IsSite s seq a h p u = (
  note_state-IsCanonical s seq a u,
  note_state-u64 s seq h u,
  nonempty (note_state s seq) seq p (ground (arith, represents-note_state s seq seq p)),
)

merge_state-IsSite :
    (s t : SiteVersion)
    → IsCanonical s
    → s.contiguous < u64_limit
    → IsSite t
    → IsSite (merge_state s t)
merge_state-IsSite s t a h b =
    let (q, p, r) = witness t b in
    (
      merge_state-IsCanonical s t a b.0,
      merge_state-u64 s t h b.1,
      nonempty (merge_state s t) q p (ground (arith, r, represents-merge_state s t q)),
    )

-- Replacing one entry, with the count of sparse receipts brought up to date.
pub replace-IsWellFormed :
    (site : ℕ) (after : SiteVersion) (v : Version)
    → IsWellFormed v
    → 0 < site
    → IsSite after
    → IsWellFormed (record {
      sites = OrdMap.insert site after v.sites;
      sparse_count =
          v.sparse_count - length (state_of site v.sites).seen_after + length after.seen_after;
    })
replace-IsWellFormed site after v w p h = record {
  ascending = OrdMap.insert-Keyed 0 site after v.sites w.ascending p;
  entries = insert-AreSites site after v.sites w.entries h;
  counted = omega (
    arith,
    w.counted,
    state_of-le site v.sites,
    sparse_total-insert site 0 after v.sites w.ascending,
  );
}

insert-or_default :
    (site : ℕ) (s : SiteVersion) (m : List (ℕ × SiteVersion))
    → OrdMap.insert site s (or_default site m) ≡ OrdMap.insert site s m
insert-or_default site s m = elim (Option-cases (OrdMap.lookup site m)) [
  | inl new ↦ rw (new, or_default) (OrdMap.insert-insert site s no_receipts m)
  | inr (t, old) ↦ rw (old, or_default)
]

note_zero : (site : ℕ) (v : Version) → note site 0 v ≡ v
unfolding note
note_zero site v = refl

-- A receipt at or below the prefix changes nothing.
note_old :
    (site seq : ℕ) (v : Version)
    → 0 < seq
    → leb seq (state_of site v.sites).contiguous ≡ true
    → note site seq v ≡ v
unfolding note
note_old site seq v p old = elim (Option-cases (OrdMap.lookup site v.sites)) [
  | inl new ↦ ground (arith, new, old)
  | inr (t, found) ↦
      let nz : (seq == 0) ≡ false = ground arith in rw (nz, old) (rw (found, or_default))
]

note_new :
    (site seq : ℕ) (v : Version)
    → 0 < seq
    → leb seq (state_of site v.sites).contiguous ≡ false
    → note site seq v ≡ (
        let after = note_state (state_of site v.sites) seq in
        record {
          sites = OrdMap.insert site after v.sites;
          sparse_count =
              v.sparse_count - length (state_of site v.sites).seen_after + length after.seen_after;
        })
unfolding note
note_new site seq v p new =
    let nz : (seq == 0) ≡ false = ground arith in rw (nz, new) (rw insert-or_default)

-- If a version is well-formed (sites nonzero and ascending, each with a canonical entry that is
-- not empty and within `u64`, the cached count right), the site is not 0 and the sequence number
-- is a `u64`, then `note` leaves a well-formed version.
pub note-IsWellFormed :
    (site seq : ℕ) (v : Version)
    → IsWellFormed v
    → 0 < site
    → seq < u64_limit
    → IsWellFormed (note site seq v)
note-IsWellFormed site zero v w p u = rw note_zero w
note-IsWellFormed site (suc n) v w p u =
    elim (Bool-cases (leb (suc n) (state_of site v.sites).contiguous)) [
      | inl old ↦ rw (note_old site (suc n) v (omega arith) old) w
      | inr new ↦
          let (canonical, bound) = state_of-IsCanonical site v.sites w.entries in
          rw (note_new site (suc n) v (omega arith) new) (
            replace-IsWellFormed site (note_state (state_of site v.sites) (suc n)) v w p
              (note_state-IsSite (state_of site v.sites) (suc n) canonical bound (omega arith) u))
    ]

merge_sites-IsWellFormed :
    (b : ℕ) (m : List (ℕ × SiteVersion)) (v : Version)
    → Keyed b m
    → AreSites m
    → IsWellFormed v
    → IsWellFormed (merge_sites m v)
unfolding merge_sites merge_site
merge_sites-IsWellFormed b [] v k a w = w
merge_sites-IsWellFormed b ((site, incoming) ∷ m) v k a w =
    let (canonical, bound) = state_of-IsCanonical site v.sites w.entries in
    merge_sites-IsWellFormed site m (merge_site site incoming v) k.1 a.1 (
      replace-IsWellFormed site (merge_state (state_of site v.sites) incoming) v w
        (omega (arith, k.0))
        (merge_state-IsSite (state_of site v.sites) incoming canonical bound a.0))

-- If two versions are well-formed (sites nonzero and ascending, each with a canonical entry that
-- is not empty and within `u64`, the cached count right), then so is the merged one.
pub merge-IsWellFormed :
    (v w : Version) → IsWellFormed v → IsWellFormed w → IsWellFormed (merge v w)
unfolding merge
merge-IsWellFormed v w a b = merge_sites-IsWellFormed 0 w.sites v b.ascending b.entries a
