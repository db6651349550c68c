-- ===== src/Replica/Local/Rollback.antt =====
-- src/replica.rs: a rolled-back transaction leaves the receipts and counters as they were.
use esbt_web.Base.{
  ℕ, ◌-◌, ◌<◌, ◌≡◌, refl, ap, sym, subst, ◌∙◌, not, ◌||◌, Bool-cases, inl, inr, Option-cases, some,
  leb, ◌==◌, min, u64_limit, checked_add64, arith,
}
use esbt_web.Base.Table
use esbt_web.Error.{Result, ok, err, Result-cases}
use esbt_web.Weight.{Weight, empty_site}
use esbt_web.Weight.Equality.{weight_eq}
use esbt_web.Clock
use esbt_web.Clock.Canonical.{IsWellFormed}
use esbt_web.Clock.Checkpoint.{restore_site-checkpoint_site}
use esbt_web.DocTree
use esbt_web.Allocator
use esbt_web.Replica.{Replica, len}
use esbt_web.Replica.Local.{
  LocalTransactionCheckpoint, begin_local_transaction, rollback_local_transaction, try_stamp,
  apply_local, choose_weight, settle_run, insert_weight, try_local_insert, delete_weight,
  try_local_delete, try_local_insert_at_weight, without_run, insertion, deletion,
}
use esbt_web.Replica.Local.Receipts.{
  Noted, Noted-note, checked_fits, Advances, Advances-refl, Advances-trans, unchanged,
  try_stamp-Advances, apply_local-Advances, choose_weight-Advances,
}

settle_run-Advances : (w : Weight) (c : ℕ) (r : Replica) → Advances r (settle_run w c r)
settle_run-Advances w c r = unchanged r (settle_run w c r) refl refl refl

-- A new insertion counter, noted for the own site.
counted :
    (r s : Replica) (c : ℕ)
    → checked_add64 r.counter 1 ≡ some c
    → s.site ≡ r.site
    → s.version ≡ r.version
    → s.insertion_version ≡ Clock.note r.site c r.insertion_version
    → Advances r s
counted r s c e a b d = record {
  site = a;
  operations = (unchanged r (record r { version = s.version }) refl b refl).operations;
  insertions =
      subst (Noted r.site r.insertion_version) (sym d)
        (Noted-note r.site c r.insertion_version (checked_fits r.counter c e));
}

insert_weight-Advances :
    (w : Weight) (unit : ℕ) (r : Replica) → Advances r (insert_weight w unit r).1
unfolding insert_weight
insert_weight-Advances w unit r = elim (Option-cases (checked_add64 r.counter 1)) [
  | inl full ↦ rw (full, insert_weight) (Advances-refl r)
  | inr (c, e) ↦
      let noted = record r {
        counter = c;
        insertion_version = Clock.note r.site c r.insertion_version;
        counter_map = Table.insert w c r.counter_map;
      } in
      let after = (try_stamp noted).1 in
      let one =
        Advances-trans r noted after (counted r noted c e refl refl refl)
          (try_stamp-Advances noted) in
      elim (Result-cases (try_stamp noted).0) [
        | inl (code, f) ↦ rw (e, f, insert_weight) one
        | inr (seq, f) ↦
            let op = insertion w unit c r.site seq in
            rw (e, f, insert_weight)
              (Advances-trans r after (settle_run w c (apply_local op after)) one (
                Advances-trans after (apply_local op after) (settle_run w c (apply_local op after))
                  (apply_local-Advances op after) (settle_run-Advances w c (apply_local op after))))
      ]
]

try_local_insert-Advances :
    (index unit max_attempts : ℕ) (r : Replica)
    → Advances r (try_local_insert index unit max_attempts r).1
unfolding try_local_insert
try_local_insert-Advances index unit max_attempts r =
    let chosen = choose_weight (min index (len r)) max_attempts r in
    let one = choose_weight-Advances (min index (len r)) max_attempts r in
    elim (Bool-cases ((r.counter == u64_limit - 1) || (r.local_seq == u64_limit - 1))) [
      | inl full ↦ rw (full, try_local_insert) (Advances-refl r)
      | inr room ↦ elim (Result-cases chosen.0) [
        | inl (code, e) ↦ rw (room, e, try_local_insert) one
        | inr (w, e) ↦
            rw (room, e, try_local_insert)
              (Advances-trans r chosen.1 (insert_weight w unit chosen.1).1 one
                (insert_weight-Advances w unit chosen.1))
      ]
    ]

delete_weight-Advances : (w : Weight) (r : Replica) → Advances r (delete_weight w r).1
unfolding delete_weight
delete_weight-Advances w r = elim (Option-cases (Table.lookup w r.counter_map)) [
  | inl missing ↦ rw (missing, delete_weight) (Advances-refl r)
  | inr (c, e) ↦
      let after = (try_stamp r).1 in
      elim (Result-cases (try_stamp r).0) [
        | inl (code, f) ↦ rw (e, f, delete_weight) (try_stamp-Advances r)
        | inr (seq, f) ↦
            let op = deletion w c r.site seq in
            rw (e, f, delete_weight)
              (Advances-trans r after (apply_local op after) (try_stamp-Advances r)
                (apply_local-Advances op after))
      ]
]

try_local_delete-Advances : (index : ℕ) (r : Replica) → Advances r (try_local_delete index r).1
unfolding try_local_delete
try_local_delete-Advances index r =
    let stopped = without_run r in
    let one = unchanged r stopped refl refl refl in
    elim (Bool-cases (leb (len r) index)) [
      | inl past ↦ rw (past, try_local_delete) one
      | inr within ↦ elim (Option-cases (DocTree.get_at index r.doc)) [
        | inl nothing ↦ rw (within, nothing, try_local_delete) one
        | inr (a, e) ↦
            rw (within, e, try_local_delete)
              (Advances-trans r stopped (delete_weight a.weight stopped).1 one
                (delete_weight-Advances a.weight stopped))
      ]
    ]

try_local_insert_at_weight-Advances :
    (w : Weight) (unit : ℕ) (r : Replica) → Advances r (try_local_insert_at_weight w unit r).1
unfolding try_local_insert_at_weight
try_local_insert_at_weight-Advances w unit r =
    let stopped = without_run r in
    elim (Bool-cases
      ((w.site == empty_site) || not (w.site == r.site) || DocTree.contains w r.doc)) [
        | inl refused ↦
            rw (refused, try_local_insert_at_weight) (unchanged r stopped refl refl refl)
        | inr fine ↦ elim (Option-cases (checked_add64 r.counter 1)) [
          | inl full ↦
              rw (fine, full, try_local_insert_at_weight) (unchanged r stopped refl refl refl)
          | inr (c, e) ↦
              let noted = record stopped {
                counter = c;
                insertion_version = Clock.note r.site c r.insertion_version;
              } in
              let after = (try_stamp noted).1 in
              let one =
                Advances-trans r noted after (counted r noted c e refl refl refl)
                  (try_stamp-Advances noted) in
              elim (Result-cases (try_stamp noted).0) [
                | inl (code, f) ↦ rw (fine, e, f, try_local_insert_at_weight) one
                | inr (seq, f) ↦
                    let op = insertion w unit c r.site seq in
                    let mapped = record after {
                      counter_map = Table.insert w c after.counter_map;
                    } in
                    rw (fine, e, f, try_local_insert_at_weight)
                      (Advances-trans r after (apply_local op mapped) one (
                        Advances-trans after mapped (apply_local op mapped)
                          (unchanged after mapped refl refl refl) (apply_local-Advances op mapped)))
              ]
        ]
      ]

-- The replica's own mutations, one after another.
pub data LocalSteps : Replica → Replica → Type 0 where
  stay : {r : Replica} → LocalSteps r r
  insert :
      {r t : Replica} (index unit max_attempts : ℕ)
      → LocalSteps r t
      → LocalSteps r (try_local_insert index unit max_attempts t).1
  delete : {r t : Replica} (index : ℕ) → LocalSteps r t → LocalSteps r (try_local_delete index t).1
  reuse :
      {r t : Replica} (w : Weight) (unit : ℕ)
      → LocalSteps r t
      → LocalSteps r (try_local_insert_at_weight w unit t).1

LocalSteps-Advances : (r s : Replica) → LocalSteps r s → Advances r s
LocalSteps-Advances _ _ (LocalSteps.stay {r}) = Advances-refl r
LocalSteps-Advances _ _ (LocalSteps.insert {r} {t} index unit max_attempts steps) =
    Advances-trans r t (try_local_insert index unit max_attempts t).1
      (LocalSteps-Advances r t steps) (try_local_insert-Advances index unit max_attempts t)
LocalSteps-Advances _ _ (LocalSteps.delete {r} {t} index steps) =
    Advances-trans r t (try_local_delete index t).1 (LocalSteps-Advances r t steps)
      (try_local_delete-Advances index t)
LocalSteps-Advances _ _ (LocalSteps.reuse {r} {t} w unit steps) =
    Advances-trans r t (try_local_insert_at_weight w unit t).1 (LocalSteps-Advances r t steps)
      (try_local_insert_at_weight-Advances w unit t)

-- What a transaction's start remembers.
abbrev checkpoint_of : Replica → LocalTransactionCheckpoint
checkpoint_of r = record {
  local_sequence = r.local_seq;
  insertion_counter = r.counter;
  operation_receipts = Clock.checkpoint_site r.site r.version;
  insertion_receipts = Clock.checkpoint_site r.site r.insertion_version;
  insert_run = r.local_insert_run;
  visible_revision = r.visible_revision;
}

abbrev begun_of :
    LocalTransactionCheckpoint × Replica
    → Result (LocalTransactionCheckpoint × Replica)
    → LocalTransactionCheckpoint × Replica
begun_of d (err e) = d
begun_of d (ok begun) = begun

begun :
    (r : Replica) (checkpoint : LocalTransactionCheckpoint) (started : Replica)
    → begin_local_transaction r ≡ ok (checkpoint, started)
    → (checkpoint ≡ checkpoint_of r) × Advances r started
unfolding begin_local_transaction
begun r checkpoint started h = elim (Bool-cases (Allocator.begin_transaction r.alloc).0) [
  | inl idle ↦
      let s = record r { alloc = (Allocator.begin_transaction r.alloc).1 } in
      let e : ok (checkpoint_of r, s) ≡ ok (checkpoint, started) = ground (arith, h, idle) in
      let pair = ap (begun_of (checkpoint_of r, s)) (sym e) in
      (
        ap (λ (x : LocalTransactionCheckpoint × Replica). x.0) pair,
        subst (Advances r) (sym (ap (λ (x : LocalTransactionCheckpoint × Replica). x.1) pair))
            (unchanged r s refl refl refl),
      )
  | inr active ↦ absurd (ground (arith, h, active))
]

-- If a transaction begins at a replica whose site is not 0 and whose versions of operations and of
-- insertions are well-formed (sites nonzero and ascending, each with a canonical entry that is not
-- empty and within `u64`, the cached count right), then rolling it back after any sequence of own
-- insertions, deletions and reuses gives back both versions, the local sequence, the insertion
-- counter, the run and the revision.
pub rollback_local_transaction-LocalSteps :
    (r started s : Replica) (checkpoint : LocalTransactionCheckpoint)
    → 0 < r.site
    → IsWellFormed r.version
    → IsWellFormed r.insertion_version
    → begin_local_transaction r ≡ ok (checkpoint, started)
    → LocalSteps started s
    → let after = rollback_local_transaction checkpoint s in
      (after.version ≡ r.version)
      × (after.insertion_version ≡ r.insertion_version)
      × (after.local_seq ≡ r.local_seq)
      × (after.counter ≡ r.counter)
      × (after.local_insert_run ≡ r.local_insert_run)
      × (after.visible_revision ≡ r.visible_revision)
unfolding rollback_local_transaction
rollback_local_transaction-LocalSteps r started s checkpoint p wo wi h steps =
    let a =
      Advances-trans r started s (begun r checkpoint started h).1
        (LocalSteps-Advances started s steps) in
    let e = (begun r checkpoint started h).0 in
    (
      ap
            (λ (c : LocalTransactionCheckpoint).
              Clock.restore_site s.site c.operation_receipts s.version)
            e
          ∙ ap (λ x. Clock.restore_site x (Clock.checkpoint_site r.site r.version) s.version) a.site
          ∙ restore_site-checkpoint_site r.site r.version s.version wo (a.operations.0 p wo) p
              a.operations.1,
      ap
            (λ (c : LocalTransactionCheckpoint).
              Clock.restore_site s.site c.insertion_receipts s.insertion_version)
            e
          ∙ ap
              (λ x.
                Clock.restore_site x (Clock.checkpoint_site r.site r.insertion_version)
                  s.insertion_version)
              a.site
          ∙ restore_site-checkpoint_site r.site r.insertion_version s.insertion_version wi
              (a.insertions.0 p wi) p a.insertions.1,
      ap (λ (c : LocalTransactionCheckpoint). c.local_sequence) e,
      ap (λ (c : LocalTransactionCheckpoint). c.insertion_counter) e,
      ap (λ (c : LocalTransactionCheckpoint). c.insert_run) e,
      ap (λ (c : LocalTransactionCheckpoint). c.visible_revision) e,
    )
