-- ===== src/Clock/Checkpoint.antt =====
-- src/clock.rs: restoring a site's checkpoint undoes every receipt noted for that site since.
use esbt_web.Base.{
  ℕ, ◌+◌, ◌<◌, ◌≡◌, ◌≢◌, refl, ◌==◌, if◌then◌else◌, Bool-cases, inl, inr, Option, some, none, List,
  [], ◌∷◌, length, arith,
}
use esbt_web.Base.OrdMap
use esbt_web.Base.OrdMap.{Keyed, lookup-insert, lookup-remove}
use esbt_web.Clock.{
  SiteVersion, Version, contains, state_of, checkpoint_site, restore_site, restored,
}
use esbt_web.Clock.Canonical.{
  IsSite, AreSites, IsWellFormed, sparse_total, sparse_total-insert, insert-AreSites, state_of-le,
}
use esbt_web.Clock.Algebra.{IsWellFormed-unique}

remove-AreSites : (k : ℕ) (m : List (ℕ × SiteVersion)) → AreSites m → AreSites (OrdMap.remove k m)
unfolding OrdMap.remove
remove-AreSites k [] a = tt
remove-AreSites k ((j, s) ∷ m) a = elim (Bool-cases (k == j)) [
  | inl same ↦ rw same (remove-AreSites k m a.1)
  | inr other ↦ rw other (a.0, remove-AreSites k m a.1)
]

sparse_total-remove :
    (k b : ℕ) (m : List (ℕ × SiteVersion))
    → Keyed b m
    → sparse_total (OrdMap.remove k m) + length (state_of k m).seen_after ≡ sparse_total m
unfolding OrdMap.remove OrdMap.lookup
sparse_total-remove k b [] a = omega arith
sparse_total-remove k b ((j, s) ∷ m) a =
    ground (arith, sparse_total-remove k j m a.1, OrdMap.remove-Keyed_self j k m a.1)

found-IsSite :
    (k : ℕ) (m : List (ℕ × SiteVersion)) (s : SiteVersion)
    → AreSites m
    → OrdMap.lookup k m ≡ some s
    → IsSite s
unfolding OrdMap.lookup
found-IsSite k [] s a e = cc
found-IsSite k ((j, t) ∷ m) s a e = elim (Bool-cases (k == j)) [
  | inl same ↦ let e' : t ≡ s = ground (arith, same) in rw (← e') a.0
  | inr other ↦ found-IsSite k m s a.1 (ground (arith, other))
]

-- The table after the restore holds the checkpoint under the site, and is unchanged elsewhere.
lookup-restored :
    (k site : ℕ) (o : Option SiteVersion) (m : List (ℕ × SiteVersion))
    → OrdMap.lookup k (restored site o m) ≡ (if k == site then o else OrdMap.lookup k m)
unfolding restored
lookup-restored k site (some s) m = lookup-insert k site s m
lookup-restored k site none m = lookup-remove k site m

restore_site-IsWellFormed :
    (site : ℕ) (o : Option SiteVersion) (w : Version)
    → IsWellFormed w
    → 0 < site
    → ((s : SiteVersion) → o ≡ some s → IsSite s)
    → IsWellFormed (restore_site site o w)
unfolding restore_site restored
restore_site-IsWellFormed site none w a p h = record {
  ascending = OrdMap.remove-Keyed 0 site w.sites a.ascending;
  entries = remove-AreSites site w.sites a.entries;
  counted = ground (
    arith,
    a.counted,
    sparse_total-remove site 0 w.sites a.ascending,
    lookup-remove site site w.sites,
  );
}
restore_site-IsWellFormed site (some s) w a p h = record {
  ascending = OrdMap.insert-Keyed 0 site s w.sites a.ascending p;
  entries = insert-AreSites site s w.sites a.entries (h s refl);
  counted = ground (
    arith,
    a.counted,
    state_of-le site w.sites,
    sparse_total-insert site 0 s w.sites a.ascending,
    lookup-insert site site s w.sites,
  );
}

contains-restore_site :
    (site : ℕ) (v w : Version)
    → ((s q : ℕ) → s ≢ site → contains s q w ≡ contains s q v)
    → (s q : ℕ) → contains s q (restore_site site (checkpoint_site site v) w) ≡ contains s q v
unfolding contains restore_site checkpoint_site
contains-restore_site site v w h s q = elim (Bool-cases (s == site)) [
  | inl same ↦ ground (arith, same, lookup-restored s site (OrdMap.lookup site v.sites) w.sites)
  | inr other ↦
      ground (arith, other, lookup-restored s site (OrdMap.lookup site v.sites) w.sites, h s q)
]

-- If `w` contains the receipts that `v` does, but perhaps for those of one site, then restoring in
-- `w` the checkpoint that `v` gave of that site gives back `v`.
pub restore_site-checkpoint_site :
    (site : ℕ) (v w : Version)
    → IsWellFormed v
    → IsWellFormed w
    → 0 < site
    → ((s q : ℕ) → s ≢ site → contains s q w ≡ contains s q v)
    → restore_site site (checkpoint_site site v) w ≡ v
restore_site-checkpoint_site site v w a b p h =
    IsWellFormed-unique (restore_site site (checkpoint_site site v) w) v
      (restore_site-IsWellFormed site (checkpoint_site site v) w b p
        (λ s e. found-IsSite site v.sites s a.entries (unfold checkpoint_site in e)))
      a (contains-restore_site site v w h)
