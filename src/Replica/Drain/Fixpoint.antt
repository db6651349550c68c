-- ===== src/Replica/Drain/Fixpoint.antt =====
-- src/replica.rs: `drain_weight` ends, and leaves only what has to wait.
use esbt_web.Base.{
  ℕ, zero, suc, ◌+◌, ◌<◌, ◌≤◌, ◌≡◌, refl, Bool, true, false, Bool-cases, inl, inr, List, [], ◌∷◌,
  ◌++◌, length, length-append, All, arith,
}
use esbt_web.Weight.{Weight}
use esbt_web.Op.{Op}
use esbt_web.Update.VisibleEdit.{VisibleEdit}
use esbt_web.Replica.{Replica}
use esbt_web.Replica.Pending
use esbt_web.Replica.Pending.Queue.{for_weight-replace}
use esbt_web.Replica.Drain.{
  Verdict, Drained, verdict, is_causally_ready, should_ignore, apply_ready, ignore, push_some,
  sweep, passes, drain_weight,
}
use esbt_web.Replica.Drain.Text.{Verdict-cases}

-- The operation is neither ready nor to be ignored.
abbrev pub Waits : Replica → Op → Type 0
Waits r op = verdict op r ≡ Verdict.waiting

-- A pass that made progress is shorter, and one that made none found only what waits.
abbrev Passed : List Op → ℕ → Drained → Type 0
Passed kept n d =
    (length d.pending ≤ n)
    × ((d.progressed ≡ true) → suc (length d.pending) ≤ n)
    × ((d.progressed ≡ false) → All (Waits d.replica) d.pending)

All-append-Waits :
    (r : Replica) (l : List Op) (op : Op)
    → All (Waits r) l
    → Waits r op
    → All (Waits r) (l ++ (op ∷ []))
All-append-Waits r [] op h k = (k, tt)
All-append-Waits r (x ∷ l) op h k = (h.0, All-append-Waits r l op h.1 k)

-- Once a pass made progress it keeps saying so.
sweep-progressed :
    (kept rest : List Op) (r : Replica) (edits : List VisibleEdit)
    → (sweep kept rest r edits true).progressed ≡ true
unfolding sweep
sweep-progressed kept [] r edits = refl
sweep-progressed kept (op ∷ rest) r edits = elim (Verdict-cases (verdict op r)) [
  | inl ready ↦
      rw (ready, sweep)
        (sweep-progressed kept rest (apply_ready op r).1 (push_some edits (apply_ready op r).0))
  | inr (inl ignored) ↦
      rw (ignored, sweep) (sweep-progressed kept rest (ignore op (kept ++ rest) r) edits)
  | inr (inr waiting) ↦ rw (waiting, sweep) (sweep-progressed (kept ++ (op ∷ [])) rest r edits)
]

sweep-length :
    (kept rest : List Op) (r : Replica) (edits : List VisibleEdit) (p : Bool)
    → length (sweep kept rest r edits p).pending ≤ length kept + length rest
unfolding sweep
sweep-length kept [] r edits p = omega arith
sweep-length kept (op ∷ rest) r edits p = elim (Verdict-cases (verdict op r)) [
  | inl ready ↦
      rw (ready, sweep)
        (omega (
          arith,
          sweep-length kept rest (apply_ready op r).1 (push_some edits (apply_ready op r).0) true,
        ))
  | inr (inl ignored) ↦
      rw (ignored, sweep)
        (omega (arith, sweep-length kept rest (ignore op (kept ++ rest) r) edits true))
  | inr (inr waiting) ↦
      rw (waiting, sweep)
        (omega
          (arith, sweep-length (kept ++ (op ∷ [])) rest r edits p, length-append kept (op ∷ [])))
]

sweep-Passed :
    (kept rest : List Op) (r : Replica) (edits : List VisibleEdit)
    → All (Waits r) kept
    → Passed kept (length kept + length rest) (sweep kept rest r edits false)
unfolding sweep
sweep-Passed kept [] r edits h = (omega arith, λ e. absurd (ground (arith, e)), λ e. h)
sweep-Passed kept (op ∷ rest) r edits h = elim (Verdict-cases (verdict op r)) [
  | inl ready ↦
      let after = (apply_ready op r).1 in
      let more = push_some edits (apply_ready op r).0 in
      let len = sweep-length kept rest after more true in
      rw (ready, sweep)
        (
          omega (arith, len),
          (λ e. omega (arith, len)),
          λ e. absurd (ground (arith, e, sweep-progressed kept rest after more)),
        )
  | inr (inl ignored) ↦
      let after = ignore op (kept ++ rest) r in
      let len = sweep-length kept rest after edits true in
      rw (ignored, sweep)
        (
          omega (arith, len),
          (λ e. omega (arith, len)),
          λ e. absurd (ground (arith, e, sweep-progressed kept rest after edits)),
        )
  | inr (inr waiting) ↦
      let done =
        sweep-Passed (kept ++ (op ∷ [])) rest r edits (All-append-Waits r kept op h waiting) in
      let len = length-append kept (op ∷ []) in
      rw (waiting, sweep) (omega (arith, len, done.0), (λ e. omega (arith, len, done.1 e)), done.2)
]

-- With more passes than operations the loop ends by itself.
passes_end :
    (fuel : ℕ) (pending : List Op) (r : Replica) (edits : List VisibleEdit)
    → length pending < fuel
    → let d = passes fuel pending r edits in
      (d.progressed ≡ false) × All (Waits d.replica) d.pending × (length d.pending ≤ length pending)
unfolding passes
passes_end zero pending r edits h = absurd (omega (arith, h))
passes_end (suc fuel) pending r edits h =
    let pass = sweep [] pending r edits false in
    let done = sweep-Passed [] pending r edits tt in
    elim (Bool-cases pass.progressed) [
      | inl again ↦
          let shorter = done.1 again in
          let rest =
            passes_end fuel pass.pending pass.replica pass.edits (omega (arith, h, shorter)) in
          rw (again, passes) (rest.0, rest.1, omega (arith, rest.2, shorter))
      | inr stop ↦ rw (stop, passes) (stop, done.2 stop, omega (arith, done.0))
    ]

-- The loop of `drain_weight`, with one pass more than the queue has operations, ends because a
-- pass made no progress, and every operation that it leaves in the queue is neither ready nor to
-- be ignored.
pub passes-Waits :
    (pending : List Op) (r : Replica) (edits : List VisibleEdit)
    → let d = passes (suc (length pending)) pending r edits in
      (d.progressed ≡ false) × All (Waits d.replica) d.pending
passes-Waits pending r edits =
    let done = passes_end (suc (length pending)) pending r edits (omega arith) in (done.0, done.1)

-- After `drain_weight` every operation still queued under the weight is neither ready nor to be
-- ignored.
pub drain_weight-Waits :
    (w : Weight) (r : Replica)
    → let after = (drain_weight w r).1 in All (Waits after) (Pending.for_weight w after.pending)
unfolding drain_weight Pending.take verdict is_causally_ready should_ignore
drain_weight-Waits w r =
    let queue = Pending.for_weight w r.pending in
    let taken = record r { pending = (Pending.take w r.pending).1 } in
    let d = passes (suc (length queue)) queue taken [] in
    rw (for_weight-replace w d.pending d.replica.pending) (passes-Waits queue taken []).1
