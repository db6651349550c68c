-- ===== src/Replica/Receive/Missing.antt =====
-- src/replica.rs: `ops_missing_from` finds what a peer misses.
use esbt_web.Base.{
  ℕ, ◌≡◌, refl, ap, sym, ◌∙◌, Bool, true, false, not, ◌&&◌, ◌||◌, Bool-cases, inl, inr, List, [],
  ◌∷◌, All, arith,
}
use esbt_web.Base.Table
use esbt_web.Op.{Op}
use esbt_web.Op.Equality.{op_eq, eqb_sound}
use esbt_web.Clock
use esbt_web.Clock.{Version}
use esbt_web.Replica.{Replica}
use esbt_web.Replica.Receive.{
  key_before, insert_by_key, sort_by_key, not_contained, ops_missing_from,
}

-- The operations of the log.
unfoldable pub values : List ((ℕ × ℕ) × Op) → List Op
values [] = []
values ((key, op) ∷ log) = op ∷ values log

-- Whether a list has the operation.
abbrev pub has : Op → List Op → Bool
has op ops = Table.member op ops

has-insert_by_key :
    (op x : Op) (ops : List Op) → has op (insert_by_key x ops) ≡ (op_eq.eqb op x || has op ops)
unfolding insert_by_key Table.member
has-insert_by_key op x [] = refl
has-insert_by_key op x (o ∷ ops) = ground (arith, has-insert_by_key op x ops)

has-sort_by_key : (op : Op) (ops : List Op) → has op (sort_by_key ops) ≡ has op ops
unfolding sort_by_key Table.member
has-sort_by_key op [] = refl
has-sort_by_key op (o ∷ ops) =
    has-insert_by_key op o (sort_by_key ops)
    ∙ ap (λ b. op_eq.eqb op o || b) (has-sort_by_key op ops)

same_identity :
    (op o : Op) (peer : Version)
    → op_eq.eqb op o ≡ true
    → Clock.contains o.origin o.seq peer ≡ Clock.contains op.origin op.seq peer
same_identity op o peer h =
    ap (λ (x : Op). Clock.contains x.origin x.seq peer) (sym (eqb_sound op o h))

has-not_contained :
    (op : Op) (peer : Version) (log : List ((ℕ × ℕ) × Op))
    → has op (not_contained peer log)
      ≡ (has op (values log) && not (Clock.contains op.origin op.seq peer))
unfolding not_contained values Table.member
has-not_contained op peer [] = refl
has-not_contained op peer ((key, o) ∷ log) =
    ground (arith, has-not_contained op peer log, same_identity op o peer)

-- The identities do not descend.
abbrev pub IsAscending : List Op → Type 0
IsAscending [] = Unit
IsAscending (op ∷ ops) = All (λ o. key_before o op ≡ false) ops × IsAscending ops

insert_by_key-All :
    (P : Op → Type 0) (x : Op) (ops : List Op) → P x → All P ops → All P (insert_by_key x ops)
unfolding insert_by_key
insert_by_key-All P x [] px h = (px, tt)
insert_by_key-All P x (o ∷ ops) px h = elim (Bool-cases (key_before o x)) [
  | inl below ↦ rw (below, insert_by_key) (h.0, insert_by_key-All P x ops px h.1)
  | inr above ↦ rw (above, insert_by_key) (px, h)
]

above_all :
    (x o : Op) (ops : List Op)
    → key_before o x ≡ false
    → All (λ p. key_before p o ≡ false) ops
    → All (λ p. key_before p x ≡ false) ops
above_all x o [] h k = tt
above_all x o (p ∷ ops) h k = (ground (arith, h, k.0), above_all x o ops h k.1)

insert_by_key-IsAscending :
    (x : Op) (ops : List Op) → IsAscending ops → IsAscending (insert_by_key x ops)
unfolding insert_by_key
insert_by_key-IsAscending x [] h = (tt, tt)
insert_by_key-IsAscending x (o ∷ ops) h = elim (Bool-cases (key_before o x)) [
  | inl below ↦
      rw (below, insert_by_key)
        (
          insert_by_key-All (λ p. key_before p o ≡ false) x ops (ground (arith, below)) h.0,
          insert_by_key-IsAscending x ops h.1,
        )
  | inr above ↦ rw (above, insert_by_key) ((above, above_all x o ops above h.0), h)
]

sort_by_key-IsAscending : (ops : List Op) → IsAscending (sort_by_key ops)
unfolding sort_by_key
sort_by_key-IsAscending [] = tt
sort_by_key-IsAscending (op ∷ ops) =
    insert_by_key-IsAscending op (sort_by_key ops) (sort_by_key-IsAscending ops)

-- `ops_missing_from` gives exactly the logged operations that the version of the peer does not
-- contain, with no operation behind one of a greater identity.
pub has-ops_missing_from :
    (op : Op) (peer : Version) (r : Replica)
    → (has op (ops_missing_from peer r)
        ≡ (has op (values r.log) && not (Clock.contains op.origin op.seq peer)))
      × IsAscending (ops_missing_from peer r)
unfolding ops_missing_from
has-ops_missing_from op peer r = (
  has-sort_by_key op (not_contained peer r.log) ∙ has-not_contained op peer r.log,
  sort_by_key-IsAscending (not_contained peer r.log),
)
