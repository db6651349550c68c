-- ===== src/Replica/Drain/Text.antt =====
-- src/replica.rs: the edits that a drain reports make the new text of the old one.
use esbt_web.Base.{
  ℕ, zero, suc, ◌+◌, ◌<◌, ◌≤◌, ◌≡◌, refl, ap, sym, subst, ◌∙◌, Bool, true, false, Bool-cases, inl,
  inr, ◌⊎◌, Option, none, some, List, [], ◌∷◌, ◌++◌, length, length-append, All, u64_limit, arith,
}
use esbt_web.Weight.{Weight}
use esbt_web.Weight.Order.{IsOrdered}
use esbt_web.Op.{Op}
use esbt_web.DocTree.Invariant.{IsDoc}
use esbt_web.Update.VisibleEdit.{VisibleEdit}
use esbt_web.Update.VisibleEdit.Replay.{edited, replay, IsApplicable, push_visible_edit-Replays}
use esbt_web.Replica.{Replica, text}
use esbt_web.Replica.Pending
use esbt_web.Replica.Drain.{
  Verdict, Drained, verdict, apply_ready, ignore, push_some, sweep, passes, drain_weight,
}
use esbt_web.Replica.Drain.Step.{Applies, apply_ready-Reports, ignore-doc}

pub Verdict-cases :
    (v : Verdict) → (v ≡ Verdict.ready) ⊎ ((v ≡ Verdict.ignored) ⊎ (v ≡ Verdict.waiting))
Verdict-cases Verdict.ready = inl refl
Verdict-cases Verdict.ignored = inr (inl refl)
Verdict-cases Verdict.waiting = inr (inr refl)

-- The operation's identifier is one for which the order of identifiers holds.
abbrev pub OnOrdered : Op → Type 0
OnOrdered op = IsOrdered op.weight

replay-append :
    (edits : List VisibleEdit) (e : VisibleEdit) (old : List ℕ)
    → replay (edits ++ (e ∷ [])) old ≡ edited e (replay edits old)
unfolding replay
replay-append [] e old = refl
replay-append (f ∷ edits) e old = replay-append edits e (edited f old)

IsApplicable-append :
    (edits : List VisibleEdit) (e : VisibleEdit) (old : List ℕ)
    → IsApplicable edits old
    → e.from ≤ e.to
    → e.to ≤ length (replay edits old)
    → length (edited e (replay edits old)) < u64_limit
    → IsApplicable (edits ++ (e ∷ [])) old
unfolding replay
IsApplicable-append [] e old h ordered within fits = (h, ordered, within, fits)
IsApplicable-append (f ∷ edits) e old h ordered within fits =
    (h.0, h.1, h.2, IsApplicable-append edits e (edited f old) h.3 ordered within fits)

-- The edits lie within the texts that they meet, and make `new` of `old`.
abbrev pub Follows : List ℕ → List VisibleEdit → List ℕ → Type 0
Follows old edits new = (replay edits old ≡ new) × IsApplicable edits old

push_some-Follows :
    (old : List ℕ) (edits : List VisibleEdit) (o : Option VisibleEdit) (mid new : List ℕ)
    → Follows old edits mid
    → Applies o mid new
    → length new < u64_limit
    → Follows old (push_some edits o) new
push_some-Follows old edits none mid new f a fits = (f.0 ∙ sym a, f.1)
push_some-Follows old edits (some e) mid new f a fits =
    let same : edited e (replay edits old) ≡ new = ap (edited e) f.0 ∙ sym a.0.0 in
    let pushed = push_visible_edit-Replays edits e old (
      IsApplicable-append edits e old f.1 a.0.1 (subst (λ t. e.to ≤ length t) (sym f.0) a.0.2)
        (subst (λ t. length t < u64_limit) (sym same) fits)) in
    (pushed.0 ∙ replay-append edits e old ∙ same, pushed.1)

Applies-length :
    (o : Option VisibleEdit) (old new : List ℕ) → Applies o old new → length new ≤ suc (length old)
Applies-length none old new a = omega (arith, ap length a)
Applies-length (some e) old new a = a.1

-- What holds of a drain: the invariant of the document, of the queue, and of the edits; every unit
-- that was inserted has left the queue.
abbrev pub IsFaithful : List ℕ → ℕ → Drained → Type 0
IsFaithful old m d =
    IsDoc d.replica.doc
    × All OnOrdered d.pending
    × Follows old d.edits (text d.replica)
    × (length (text d.replica) + length d.pending ≤ m)

pub All-append-OnOrdered :
    (l : List Op) (op : Op) → All OnOrdered l → OnOrdered op → All OnOrdered (l ++ (op ∷ []))
All-append-OnOrdered [] op h k = (k, tt)
All-append-OnOrdered (x ∷ l) op h k = (h.0, All-append-OnOrdered l op h.1 k)

sweep-IsFaithful :
    (old : List ℕ) (m : ℕ) (kept rest : List Op) (r : Replica) (edits : List VisibleEdit) (p : Bool)
    → m < u64_limit
    → IsDoc r.doc
    → All OnOrdered kept
    → All OnOrdered rest
    → Follows old edits (text r)
    → length (text r) + length kept + length rest ≤ m
    → IsFaithful old m (sweep kept rest r edits p)
unfolding sweep
sweep-IsFaithful old m kept [] r edits p fits d hk hr f b = (d, hk, f, omega (arith, b))
sweep-IsFaithful old m kept (op ∷ rest) r edits p fits d hk hr f b =
    elim (Verdict-cases (verdict op r)) [
      | inl ready ↦
          let (edit, after) = apply_ready op r in
          let report = apply_ready-Reports op r hr.0 d in
          let len =
            Applies-length (apply_ready op r).0 (text r) (text (apply_ready op r).1) report.1 in
          rw (ready, sweep)
            (sweep-IsFaithful old m kept rest (apply_ready op r).1
              (push_some edits (apply_ready op r).0) true fits report.0 hk hr.1
              (push_some-Follows old edits (apply_ready op r).0 (text r) (text (apply_ready op r).1)
                f report.1 (omega (arith, len, b, fits)))
              (omega (arith, len, b)))
      | inr (inl ignored) ↦
          let same = ignore-doc op (kept ++ rest) r in
          rw (ignored, sweep)
            (sweep-IsFaithful old m kept rest (ignore op (kept ++ rest) r) edits true fits
              (subst IsDoc (sym same) d) hk hr.1
              (subst (λ t. Follows old edits (esbt_web.DocTree.units t)) (sym same) f)
              (subst (λ t. length (esbt_web.DocTree.units t) + length kept + length rest ≤ m)
                (sym same) (omega (arith, b))))
      | inr (inr waiting) ↦
          rw (waiting, sweep)
            (sweep-IsFaithful old m (kept ++ (op ∷ [])) rest r edits p fits d
              (All-append-OnOrdered kept op hk hr.0) hr.1 f
              (omega (arith, b, length-append kept (op ∷ []))))
    ]

passes-IsFaithful :
    (old : List ℕ) (m fuel : ℕ) (pending : List Op) (r : Replica) (edits : List VisibleEdit)
    → m < u64_limit
    → IsDoc r.doc
    → All OnOrdered pending
    → Follows old edits (text r)
    → length (text r) + length pending ≤ m
    → IsFaithful old m (passes fuel pending r edits)
unfolding passes
passes-IsFaithful old m zero pending r edits fits d h f b = (d, h, f, b)
passes-IsFaithful old m (suc fuel) pending r edits fits d h f b =
    let pass = sweep [] pending r edits false in
    let done = sweep-IsFaithful old m [] pending r edits false fits d tt h f (omega (arith, b)) in
    elim (Bool-cases pass.progressed) [
      | inl again ↦
          rw (again, passes)
            (passes-IsFaithful old m fuel pass.pending pass.replica pass.edits fits done.0 done.1
              done.2 done.3)
      | inr stop ↦ rw (stop, passes) done
    ]

-- If every node of the document stores its size and its atoms ascend by weights in lowest terms,
-- the operations queued under the weight are on weights in lowest terms, and `usize` holds the
-- length of the text plus one unit for each of them, then after `drain_weight` sizes and order are
-- still right, and the edits that it reports lie within the texts that they meet, fit `usize`, and
-- make the new text of the old one.
pub drain_weight-Follows :
    (w : Weight) (r : Replica)
    → IsDoc r.doc
    → All OnOrdered (Pending.for_weight w r.pending)
    → length (text r) + length (Pending.for_weight w r.pending) < u64_limit
    → let (edits, after) = drain_weight w r in
      IsDoc after.doc × (replay edits (text r) ≡ text after) × IsApplicable edits (text r)
unfolding drain_weight Pending.take replay
drain_weight-Follows w r d h fits =
    let queue = Pending.for_weight w r.pending in
    let taken = (Pending.take w r.pending).1 in
    let done =
      passes-IsFaithful (text r) (length (text r) + length queue) (suc (length queue)) queue
        (record r { pending = taken }) [] fits d h (refl, omega (arith, fits)) (omega arith) in
    (done.0, done.2.0, done.2.1)
