-- ===== src/Clock/Algebra.antt =====
-- src/clock.rs: a well-formed `Version` is determined by the receipts that it contains, so `merge` is
-- the join of a semilattice, and `covers` its order.
use esbt_web.Base.{ℕ, ◌<◌, ◌≡◌, refl, sym, ap, ◌∙◌, List, [], ◌∷◌, arith}
use esbt_web.Base.OrdMap
use esbt_web.Base.OrdMap.{Keyed, lookup-Keyed}
use esbt_web.Clock.{SiteVersion, Version, contains, merge}
use esbt_web.Clock.Absorb.{IsCanonical-unique}
use esbt_web.Clock.Canonical.{
  IsSite, AreSites, IsWellFormed, sparse_total, witness, merge-IsWellFormed,
}
use esbt_web.Clock.Receipts.{within, contains-merge}

module _ (j k : ℕ) (s t : SiteVersion) (m n : List (ℕ × SiteVersion)) (km : Keyed j m)
    (kn : Keyed k n) (hs : IsSite s) (ht : IsSite t)
    (h : (i q : ℕ) → within i q ((j, s) ∷ m) ≡ within i q ((k, t) ∷ n)) where
  not_below : j < k → ⊥
  unfolding contains OrdMap.lookup
  not_below l = let (q, p, r) = witness s hs in ground (arith, h j q, r, lookup-Keyed j k n kn)

  not_above : k < j → ⊥
  unfolding contains OrdMap.lookup
  not_above l = let (q, p, r) = witness t ht in ground (arith, h k q, r, lookup-Keyed k j m km)

  same_key : j ≡ k
  same_key = omega (arith, not_below, not_above)

  same_state : s ≡ t
  unfolding contains OrdMap.lookup
  same_state = IsCanonical-unique s t hs.0 ht.0 (λ q. ground (arith, h j q, same_key))

  same_rest : (i q : ℕ) → within i q m ≡ within i q n
  unfolding contains OrdMap.lookup
  same_rest i q = ground (arith, h i q, same_key, lookup-Keyed i j m km, lookup-Keyed i k n kn)

sites_unique :
    (b c : ℕ) (m n : List (ℕ × SiteVersion))
    → Keyed b m
    → Keyed c n
    → AreSites m
    → AreSites n
    → ((i q : ℕ) → within i q m ≡ within i q n)
    → m ≡ n
sites_unique b c [] [] km kn am an h = refl
sites_unique b c [] ((k, t) ∷ n) km kn am an h =
    let (q, p, r) = witness t an.0 in unfold contains OrdMap.lookup in ground (arith, h k q, r)
sites_unique b c ((j, s) ∷ m) [] km kn am an h =
    let (q, p, r) = witness s am.0 in unfold contains OrdMap.lookup in ground (arith, h j q, r)
sites_unique b c ((j, s) ∷ m) ((k, t) ∷ n) km kn am an h =
    let ek = same_key j k s t m n km.1 kn.1 am.0 an.0 h in
    let es = same_state j k s t m n km.1 kn.1 am.0 an.0 h in
    let er =
      sites_unique j k m n km.1 kn.1 am.1 an.1 (same_rest j k s t m n km.1 kn.1 am.0 an.0 h) in
    λ i. (ek i, es i) ∷ er i

-- Two well-formed summaries that contain the same receipts are the same value.
pub IsWellFormed-unique :
    (v w : Version)
    → IsWellFormed v
    → IsWellFormed w
    → ((s q : ℕ) → contains s q v ≡ contains s q w)
    → v ≡ w
unfolding contains
IsWellFormed-unique v w a b h =
    let e = sites_unique 0 0 v.sites w.sites a.ascending b.ascending a.entries b.entries h in
    let c = a.counted ∙ ap sparse_total e ∙ sym b.counted in
    λ i. record { sites = e i; sparse_count = c i }

-- For two well-formed versions (sites nonzero and ascending, each with a canonical entry that is
-- not empty and within `u64`, the cached count right), merging does not depend on their order.
pub merge_comm : (v w : Version) → IsWellFormed v → IsWellFormed w → merge v w ≡ merge w v
merge_comm v w a b =
    IsWellFormed-unique (merge v w) (merge w v) (merge-IsWellFormed v w a b)
      (merge-IsWellFormed w v b a)
      (λ s q.
        ground (arith, contains-merge v w s q b.ascending, contains-merge w v s q a.ascending))

-- For three well-formed versions (sites nonzero and ascending, each with a canonical entry that is
-- not empty and within `u64`, the cached count right), merging does not depend on the grouping.
pub merge_assoc :
    (u v w : Version)
    → IsWellFormed u
    → IsWellFormed v
    → IsWellFormed w
    → merge (merge u v) w ≡ merge u (merge v w)
merge_assoc u v w a b c =
    let uv = merge-IsWellFormed u v a b in
    let vw = merge-IsWellFormed v w b c in
    IsWellFormed-unique (merge (merge u v) w) (merge u (merge v w))
      (merge-IsWellFormed (merge u v) w uv c) (merge-IsWellFormed u (merge v w) a vw)
      (λ s q. ground (
        arith,
        contains-merge (merge u v) w s q c.ascending,
        contains-merge u v s q b.ascending,
        contains-merge u (merge v w) s q vw.ascending,
        contains-merge v w s q c.ascending,
      ))

-- Merging a summary again changes nothing.
pub merge_idem : (v : Version) → IsWellFormed v → merge v v ≡ v
merge_idem v a =
    IsWellFormed-unique (merge v v) v (merge-IsWellFormed v v a a) a
      (λ s q. ground (arith, contains-merge v v s q a.ascending))
