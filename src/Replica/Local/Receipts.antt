-- ===== src/Replica/Local/Receipts.antt =====
-- src/replica.rs: what the replica's own operations do to its receipts.
use esbt_web.Base.{
  ℕ, zero, suc, ◌+◌, ◌<◌, ◌≡◌, ◌≢◌, refl, ap, sym, subst, ◌∙◌, not, ◌&&◌, ◌||◌, Bool-cases, inl,
  inr, Option, Option-cases, none, some, [], ◌∷◌, ◌++◌, leb, ◌==◌, max, u64_limit, checked_add64,
  arith,
}
use esbt_web.Base.Eq.{nat_eq, pair_eq}
use esbt_web.Base.Table
use esbt_web.Weight
use esbt_web.Weight.{Weight, empty_site}
use esbt_web.Weight.Equality.{weight_eq}
use esbt_web.Op.{Op}
use esbt_web.Clock
use esbt_web.Clock.{Version}
use esbt_web.Clock.Canonical.{IsWellFormed, note-IsWellFormed}
use esbt_web.Clock.Receipts.{contains-note}
use esbt_web.DocTree
use esbt_web.Allocator
use esbt_web.Replica.{Replica, LocalInsertRun}
use esbt_web.Replica.Drain.{apply_ready, drain_weight}
use esbt_web.Replica.Drain.Frame.{SameHistory, apply_ready-SameHistory, drain_weight-SameHistory}
use esbt_web.Replica.Local.{
  repeats, try_stamp, apply_local, allocate, continue_run, continue_local_insert_run, choose_weight,
  atom_before, neighbors, transaction_active, u32_limit, mark_root, starting_run,
}

-- The receipts differ at most in those of one site, and stay well-formed.
abbrev pub Noted : ℕ → Version → Version → Type 0
Noted site v w =
    (0 < site → IsWellFormed v → IsWellFormed w)
    × ((s q : ℕ) → s ≢ site → Clock.contains s q w ≡ Clock.contains s q v)

pub Noted-note :
    (site seq : ℕ) (v : Version) → seq < u64_limit → Noted site v (Clock.note site seq v)
Noted-note site seq v fits = (
  (λ p h. note-IsWellFormed site seq v h p fits),
  λ s q other. contains-note site seq s q v ∙ ground (arith, other),
)

-- An own step: the site stays, and only its receipts change.
pub record Advances (r s : Replica) : Type 0 where
  pub site : s.site ≡ r.site
  pub operations : Noted r.site r.version s.version
  pub insertions : Noted r.site r.insertion_version s.insertion_version

pub unchanged :
    (r s : Replica)
    → s.site ≡ r.site
    → s.version ≡ r.version
    → s.insertion_version ≡ r.insertion_version
    → Advances r s
unchanged r s a b c = record {
  site = a;
  operations = ((λ p h. subst IsWellFormed (sym b) h), λ s q other. ap (Clock.contains s q) b);
  insertions = ((λ p h. subst IsWellFormed (sym c) h), λ s q other. ap (Clock.contains s q) c);
}

pub Advances-refl : (r : Replica) → Advances r r
Advances-refl r = unchanged r r refl refl refl

pub Advances-trans : (r s t : Replica) → Advances r s → Advances s t → Advances r t
Advances-trans r s t h k =
    let o = subst (λ x. Noted x s.version t.version) h.site k.operations in
    let i = subst (λ x. Noted x s.insertion_version t.insertion_version) h.site k.insertions in
    record {
      site = k.site ∙ h.site;
      operations = (
        (λ p w. o.0 p (h.operations.0 p w)),
        λ x q other. o.1 x q other ∙ h.operations.1 x q other,
      );
      insertions = (
        (λ p w. i.0 p (h.insertions.0 p w)),
        λ x q other. i.1 x q other ∙ h.insertions.1 x q other,
      );
    }

from_history : (r s : Replica) → SameHistory r s → Advances r s
from_history r s h = unchanged r s h.site h.version h.insertion_version

pub checked_fits : (n m : ℕ) → checked_add64 n 1 ≡ some m → m < u64_limit
checked_fits n m h = ground (arith, h)

pub try_stamp-Advances : (r : Replica) → Advances r (try_stamp r).1
unfolding try_stamp
try_stamp-Advances r = elim (Option-cases (checked_add64 r.local_seq 1)) [
  | inl full ↦ rw (full, try_stamp) (Advances-refl r)
  | inr (seq, e) ↦
      rw (e, try_stamp)
        (record {
          site = refl;
          operations = Noted-note r.site seq r.version (checked_fits r.local_seq seq e);
          insertions = ((λ p h. h), λ s q other. refl);
        })
]

pub apply_local-Advances : (op : Op) (r : Replica) → Advances r (apply_local op r)
unfolding apply_local
apply_local-Advances op r =
    let logged = record r { log = Table.insert (op.origin, op.seq) op r.log } in
    let applied = (apply_ready op logged).1 in
    let one =
      Advances-trans r logged applied (unchanged r logged refl refl refl)
        (from_history logged applied (apply_ready-SameHistory op logged)) in
    elim (Bool-cases (not (transaction_active applied.alloc))) [
      | inl idle ↦
          rw (idle, apply_local)
            (Advances-trans r applied (drain_weight op.weight applied).1 one (
              from_history applied (drain_weight op.weight applied).1
                (drain_weight-SameHistory op.weight applied)))
      | inr active ↦ rw (active, apply_local) one
    ]

-- The choice of a weight changes the allocator and the run only.
abbrev Unnoted : Replica → Replica → Type 0
Unnoted r s =
    (s.site ≡ r.site) × (s.version ≡ r.version) × (s.insertion_version ≡ r.insertion_version)

allocate-Unnoted :
    (n : ℕ) (left right : Weight) (previous : Option Weight) (r : Replica)
    → Unnoted r (allocate n left right previous r).1
unfolding allocate
allocate-Unnoted zero left right previous r = (refl, refl, refl)
allocate-Unnoted (suc n) left right previous r =
    let made = Allocator.create_weight left right r.site r.alloc in
    let after = record r { alloc = made.1 } in
    elim (Option-cases made.0) [
      | inl nothing ↦ rw (nothing, allocate) (refl, refl, refl)
      | inr (w, e) ↦ elim (Bool-cases (not (DocTree.contains w r.doc))) [
        | inl new ↦ rw (e, new, allocate) (refl, refl, refl)
        | inr there ↦ elim (Bool-cases (repeats previous w)) [
          | inl stuck ↦ rw (e, there, stuck, allocate) (refl, refl, refl)
          | inr other ↦
              rw (e, there, other, allocate) (allocate-Unnoted n left right (some w) after)
        ]
      ]
    ]

continue_run-Unnoted :
    (run : LocalInsertRun) (right : Weight) (r : Replica) → Unnoted r (continue_run run right r).1
unfolding continue_run
continue_run-Unnoted run right r =
    let candidate =
      Weight.new run.root.f run.root.sn (run.root.sc ++ (run.next_component ∷ [])) r.site in
    elim (Bool-cases (
      not (Weight.lt run.last candidate && Weight.lt candidate right)
      || DocTree.contains candidate r.doc)) [
        | inl taken ↦ rw (taken, continue_run) (refl, refl, refl)
        | inr free ↦ elim (Bool-cases (leb u32_limit (run.next_component + 1))) [
          | inl full ↦ rw (free, full, continue_run) (refl, refl, refl)
          | inr room ↦ rw (free, room, continue_run) (refl, refl, refl)
        ]
      ]

continue_local_insert_run-Unnoted :
    (index : ℕ) (right : Weight) (r : Replica)
    → Unnoted r (continue_local_insert_run index right r).1
unfolding continue_local_insert_run
continue_local_insert_run-Unnoted index right r = elim (Option-cases r.local_insert_run) [
  | inl idle ↦ rw (idle, continue_local_insert_run) (refl, refl, refl)
  | inr (run, e) ↦ elim (Option-cases (atom_before index r)) [
    | inl start ↦ rw (e, start, continue_local_insert_run) (refl, refl, refl)
    | inr (left, f) ↦
        elim (Bool-cases
          (not (weight_eq.eqb left.weight run.last) || not (left.counter == run.last_counter))) [
            | inl moved ↦ rw (e, f, moved, continue_local_insert_run) (refl, refl, refl)
            | inr follows ↦
                rw (e, f, follows, continue_local_insert_run) (continue_run-Unnoted run right r)
          ]
  ]
]

pub choose_weight-Advances :
    (index max_attempts : ℕ) (r : Replica) → Advances r (choose_weight index max_attempts r).1
unfolding choose_weight
choose_weight-Advances index max_attempts r =
    let (left, right) = neighbors index r in
    let continued = continue_local_insert_run index right r in
    let c = continue_local_insert_run-Unnoted index right r in
    let allocated = allocate (max max_attempts 1) left right none continued.1 in
    let a = allocate-Unnoted (max max_attempts 1) left right none continued.1 in
    elim (Option-cases continued.0) [
      | inr (w, e) ↦ rw (e, choose_weight) (unchanged r continued.1 c.0 c.1 c.2)
      | inl new ↦ elim (Option-cases allocated.0) [
        | inl full ↦
            rw (new, full, choose_weight)
              (unchanged r allocated.1 (a.0 ∙ c.0) (a.1 ∙ c.1) (a.2 ∙ c.2))
        | inr (w, e) ↦
            rw (new, e, choose_weight)
              (unchanged r
                (record allocated.1 {
                  local_insert_run = some (starting_run (mark_root left right w allocated.1));
                })
                (a.0 ∙ c.0) (a.1 ∙ c.1) (a.2 ∙ c.2))
      ]
    ]
