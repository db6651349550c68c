-- ===== src/Allocator/Tracker.antt =====
-- src/allocator.rs: the site tracker and its undo journal. The hash map is an association list with
-- at most one entry for a key, and the journal holds the latest change first.
pub mod Rollback
use esbt_web.Base.{
  ℕ, ◌≡◌, refl, Bool, true, false, ◌&&◌, Option, none, some, List, [], ◌∷◌, if◌then◌else◌,
}
use esbt_web.Base.Int.{ℤ, pos, eqb_ℤ}
use esbt_web.Fraction.{Fraction}

-- `FractionKey` and `SequenceBounds`.
abbrev pub FractionKey : Type 0
FractionKey = ℤ × ℤ

abbrev pub SequenceBounds : Type 0
SequenceBounds = ℤ × ℤ

abbrev pub Bounds : Type 0
Bounds = List (FractionKey × SequenceBounds)

abbrev pub same_key : FractionKey → FractionKey → Bool
same_key a b = eqb_ℤ a.0 b.0 && eqb_ℤ a.1 b.1

unfoldable pub lookup : FractionKey → Bounds → Option SequenceBounds
lookup k [] = none
lookup k ((j, v) ∷ m) = if same_key k j then some v else lookup k m

unfoldable pub remove : FractionKey → Bounds → Bounds
remove k [] = []
remove k ((j, v) ∷ m) = let rest = remove k m in if same_key k j then rest else (j, v) ∷ rest

abbrev pub insert : FractionKey → SequenceBounds → Bounds → Bounds
insert k v m = (k, v) ∷ remove k m

-- `TrackerChange`.
abbrev pub TrackerChange : Type 0
TrackerChange = FractionKey × Option SequenceBounds

pub record Tracker : Type 0 where
  pub map : Bounds
  pub undo : Option (List TrackerChange)

abbrev pub default : Tracker
default = record { map = []; undo = none }

-- A change joins the journal while a transaction is active.
abbrev pub journal : TrackerChange → Option (List TrackerChange) → Option (List TrackerChange)
journal change none = none
journal change (some changes) = some (change ∷ changes)

-- `Tracker::pair`: the bounds of the fraction, and the tracker that knows it.
unfoldable pub pair : Fraction → Tracker → SequenceBounds × Tracker
unfolding lookup remove
pair f t = elim (lookup (f.p, f.q) t.map) [
  | some value ↦ (value, t)
  | none ↦ (
    (pos 0, pos 0),
    record {
      map = insert (f.p, f.q) (pos 0, pos 0) t.map;
      undo = journal ((f.p, f.q), none) t.undo;
    },
  )
]

-- `Tracker::set`.
unfoldable pub set : Fraction → ℤ → ℤ → Tracker → Tracker
unfolding lookup remove
set f sn_l sn_r t = record {
  map = insert (f.p, f.q) (sn_l, sn_r) t.map;
  undo = journal ((f.p, f.q), lookup (f.p, f.q) t.map) t.undo;
}

-- `Tracker::transaction_active`.
abbrev pub transaction_active : Tracker → Bool
transaction_active t = elim t.undo [ none ↦ false | some changes ↦ true ]

-- `Tracker::begin`: whether a transaction started.
abbrev pub begin : Tracker → Bool × Tracker
begin t =
    if transaction_active t then (false, t) else (true, record { map = t.map; undo = some [] })

-- `Tracker::commit`.
abbrev pub commit : Tracker → Tracker
commit t = record { map = t.map; undo = none }

abbrev pub restore : TrackerChange → Bounds → Bounds
restore (k, some v) m = insert k v m
restore (k, none) m = remove k m

-- The loop of `rollback`.
unfoldable pub restore_all : List TrackerChange → Bounds → Bounds
unfolding remove
restore_all [] m = m
restore_all (change ∷ changes) m = restore_all changes (restore change m)

-- `Tracker::rollback`.
unfoldable pub rollback : Tracker → Tracker
unfolding restore_all
rollback t = elim t.undo [
  | none ↦ t
  | some changes ↦ record { map = restore_all changes t.map; undo = none }
]
