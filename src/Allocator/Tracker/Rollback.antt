-- ===== src/Allocator/Tracker/Rollback.antt =====
-- src/allocator.rs: a rolled-back transaction leaves the tracker's bounds as they were.
use esbt_web.Base.{
  ◌≡◌, refl, ap, ap₂, sym, subst, ◌∙◌, true, false, Option, none, some, List, [], ◌∷◌,
  if◌then◌else◌, Bool-cases, Option-cases, inl, inr, arith,
}
use esbt_web.Base.Int.{ℤ, pos, eqb_ℤ→eq, eqb_ℤ_refl}
use esbt_web.Fraction.{Fraction}
use esbt_web.Allocator.Tracker.{
  FractionKey, SequenceBounds, Bounds, TrackerChange, Tracker, same_key, lookup, remove, insert,
  journal, pair, set, begin, restore, restore_all, rollback,
}

same_key→eq : (a b : FractionKey) → same_key a b ≡ true → a ≡ b
same_key→eq a b h =
    ap₂ (λ (x y : ℤ). (x, y)) (eqb_ℤ→eq a.0 b.0 (ground arith)) (eqb_ℤ→eq a.1 b.1 (ground arith))

same_key_refl : (a : FractionKey) → same_key a a ≡ true
same_key_refl a = ground (arith, eqb_ℤ_refl a.0, eqb_ℤ_refl a.1)

lookup-remove :
    (k j : FractionKey) (m : Bounds)
    → lookup k (remove j m) ≡ (if same_key k j then none else lookup k m)
unfolding lookup remove
lookup-remove k j [] = ground arith
lookup-remove k j ((i, v) ∷ m) =
    let rest = lookup-remove k j m in
    elim (Bool-cases (same_key j i)) [
      | inl same ↦
          let e = same_key→eq j i same in
          subst
            (λ x.
              lookup k (remove j ((x, v) ∷ m))
              ≡ (if same_key k j then none else lookup k ((x, v) ∷ m)))
            e
            (rw (same_key_refl j, rest)
              (elim (Bool-cases (same_key k j)) [ inl h ↦ rw h | inr h ↦ rw h ]))
      | inr other ↦
          rw (other, rest)
            (elim (Bool-cases (same_key k i)) [
              | inl hit ↦
                  let e = same_key→eq k i hit in
                  let apart : same_key k j ≡ false = ground arith in rw (hit, apart)
              | inr miss ↦ rw miss
            ])
    ]

lookup-insert :
    (k j : FractionKey) (v : SequenceBounds) (m : Bounds)
    → lookup k (insert j v m) ≡ (if same_key k j then some v else lookup k m)
unfolding lookup
lookup-insert k j v m = elim (Bool-cases (same_key k j)) [
  | inl hit ↦ rw hit
  | inr miss ↦ rw (miss, lookup-remove k j m, miss)
]

-- Two maps with the same entries.
abbrev Agree : Bounds → Bounds → Type 0
Agree m n = (k : FractionKey) → lookup k m ≡ lookup k n

restore-Agree :
    (change : TrackerChange) (m n : Bounds)
    → Agree m n
    → Agree (restore change m) (restore change n)
restore-Agree (j, some v) m n h k = rw (lookup-insert k j v m, lookup-insert k j v n, h k)
restore-Agree (j, none) m n h k = rw (lookup-remove k j m, lookup-remove k j n, h k)

restore_all-Agree :
    (changes : List TrackerChange) (m n : Bounds)
    → Agree m n
    → Agree (restore_all changes m) (restore_all changes n)
unfolding restore_all
restore_all-Agree [] m n h = h
restore_all-Agree (change ∷ changes) m n h =
    restore_all-Agree changes (restore change m) (restore change n) (restore-Agree change m n h)

if-lookup :
    (k j : FractionKey) (v : SequenceBounds) (m : Bounds) (old : Option SequenceBounds)
    → lookup j m ≡ old
    → (if same_key k j then old else if same_key k j then some v else lookup k m) ≡ lookup k m
if-lookup k j v m old h = elim (Bool-cases (same_key k j)) [
  | inl hit ↦ rw hit (sym h ∙ ap (λ x. lookup x m) (sym (same_key→eq k j hit)))
  | inr miss ↦ rw miss
]

-- To restore what an insertion replaced undoes it.
restore-insert :
    (j : FractionKey) (v : SequenceBounds) (m : Bounds)
    → Agree (restore (j, lookup j m) (insert j v m)) m
restore-insert j v m k = elim (Option-cases (lookup j m)) [
  | inl absent ↦
      rw (absent, lookup-remove k j (insert j v m), lookup-insert k j v m)
        (if-lookup k j v m none absent)
  | inr (old, present) ↦
      rw (present, lookup-insert k j old (insert j v m), lookup-insert k j v m)
        (if-lookup k j v m (some old) present)
]

-- What happens to a tracker within a transaction.
pub data Change : Type 0 where
  pairs : Fraction → Change
  sets : Fraction → ℤ → ℤ → Change

unfoldable pub change : Change → Tracker → Tracker
unfolding pair set
change (pairs f) t = (pair f t).1
change (sets f sn_l sn_r) t = set f sn_l sn_r t

unfoldable pub changed : List Change → Tracker → Tracker
unfolding change
changed [] t = t
changed (c ∷ cs) t = changed cs (change c t)

-- A journal that leads back to certain bounds.
record LeadsBack (m : Bounds) (t : Tracker) : Type 0 where
  pub changes : List TrackerChange
  pub active : t.undo ≡ some changes
  pub back : Agree (restore_all changes t.map) m

LeadsBack-insert :
    (m : Bounds) (t : Tracker) (j : FractionKey) (v : SequenceBounds)
    → LeadsBack m t
    → LeadsBack m (record { map = insert j v t.map; undo = journal (j, lookup j t.map) t.undo })
unfolding restore_all
LeadsBack-insert m t j v h = record {
  changes = (j, lookup j t.map) ∷ h.changes;
  active = rw h.active;
  back = λ k.
      restore_all-Agree h.changes (restore (j, lookup j t.map) (insert j v t.map)) t.map
        (restore-insert j v t.map) k
      ∙ h.back k;
}

LeadsBack-change :
    (m : Bounds) (t : Tracker) (c : Change) → LeadsBack m t → LeadsBack m (change c t)
unfolding change pair set
LeadsBack-change m t (sets f sn_l sn_r) h = LeadsBack-insert m t (f.p, f.q) (sn_l, sn_r) h
LeadsBack-change m t (pairs f) h = elim (Option-cases (lookup (f.p, f.q) t.map)) [
  | inl absent ↦
      rw (absent, change)
        (subst
          (λ o. LeadsBack m (record {
            map = insert (f.p, f.q) (pos 0, pos 0) t.map;
            undo = journal ((f.p, f.q), o) t.undo;
          }))
          absent (LeadsBack-insert m t (f.p, f.q) (pos 0, pos 0) h))
  | inr (value, present) ↦ rw (present, change) h
]

LeadsBack-changed :
    (m : Bounds) (cs : List Change) (t : Tracker) → LeadsBack m t → LeadsBack m (changed cs t)
unfolding changed
LeadsBack-changed m [] t h = h
LeadsBack-changed m (c ∷ cs) t h = LeadsBack-changed m cs (change c t) (LeadsBack-change m t c h)

rollback-LeadsBack :
    (m : Bounds) (t : Tracker)
    → LeadsBack m t
    → Agree (rollback t).map m × ((rollback t).undo ≡ none)
unfolding rollback
rollback-LeadsBack m t h = rw h.active (h.back, refl)

-- If no transaction is active, then one that begins, pairs and sets any bounds, and rolls back
-- leaves every fraction with the bounds it had, and no transaction active.
pub rollback-changed :
    (t : Tracker) (cs : List Change)
    → t.undo ≡ none
    → ((k : FractionKey) → lookup k (rollback (changed cs (begin t).1)).map ≡ lookup k t.map)
      × ((rollback (changed cs (begin t).1)).undo ≡ none)
unfolding restore_all
rollback-changed t cs idle =
    let started : LeadsBack t.map (begin t).1 =
      rw idle (record { changes = []; active = refl; back = λ k. refl }) in
    rollback-LeadsBack t.map _ (LeadsBack-changed t.map cs _ started)
