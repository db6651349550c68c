-- ===== src/Update/VisibleEdit/Replay.antt =====
-- src/update.rs: coalesced edits replay to the same text.
use mathlib.Core.List.{append_assoc}
use esbt_web.Base.{
  ℕ, zero, suc, ◌+◌, ◌-◌, ◌<◌, ◌≤◌, ◌≡◌, refl, ap, ap₂, sym, subst, ◌∙◌, true, ◌&&◌, Bool-cases,
  inl, inr, List, [], ◌∷◌, ◌++◌, length, take, drop, length-append, take-append, drop-append,
  length-take_le, length-drop, take-append-drop, ◌==◌, u64_limit, arith,
}
use esbt_web.Update.VisibleEdit.{
  VisibleEdit, saturating_add, is_empty, appends, deletes_on, replaces, extended, widened, coalesce,
  push_last, push_visible_edit,
}

-- What an edit makes of a text.
unfoldable pub edited : VisibleEdit → List ℕ → List ℕ
edited e text = take e.from text ++ (e.inserted ++ drop e.to text)

-- The edits in their order.
unfoldable pub replay : List VisibleEdit → List ℕ → List ℕ
unfolding edited
replay [] text = text
replay (e ∷ edits) text = replay edits (edited e text)

-- Every edit lies within the text it meets, and every text within `usize`.
abbrev pub IsApplicable : List VisibleEdit → List ℕ → Type 0
IsApplicable [] text = length text < u64_limit
IsApplicable (e ∷ edits) text =
    (length text < u64_limit)
    × (e.from ≤ e.to)
    × (e.to ≤ length text)
    × IsApplicable edits (edited e text)

suc_sum : (n m : ℕ) → suc (n + m) ≡ suc n + m
suc_sum n m = omega arith

module _ {A : Type 0} where
  drop_nil : (n : ℕ) → drop {A = A} n [] ≡ []
  drop_nil zero = refl
  drop_nil (suc n) = refl

  drop-drop : (m n : ℕ) (l : List A) → drop m (drop n l) ≡ drop (n + m) l
  drop-drop m zero l = ap (λ (n : ℕ). drop n l) (omega arith)
  drop-drop m (suc n) [] = drop_nil m ∙ sym (drop_nil (suc n + m))
  drop-drop m (suc n) (x ∷ l) = drop-drop m n l ∙ ap (λ (k : ℕ). drop k (x ∷ l)) (suc_sum n m)

  take_at : (n : ℕ) (xs ys : List A) → length xs ≡ n → take n (xs ++ ys) ≡ xs
  take_at n xs ys h = subst (λ k. take k (xs ++ ys) ≡ xs) h (take-append xs ys)

  drop_past : (n m : ℕ) (xs ys : List A) → length xs ≡ n → drop (n + m) (xs ++ ys) ≡ drop m ys
  drop_past n m xs ys h =
      subst (λ k. drop (k + m) (xs ++ ys) ≡ drop m ys) h
        (sym (drop-drop m (length xs) (xs ++ ys)) ∙ ap (drop m) (drop-append xs ys))

-- An edit that starts where `front` ends.
edited-append :
    (e : VisibleEdit) (front rear : List ℕ)
    → e.from ≡ length front
    → e.from ≤ e.to
    → edited e (front ++ rear) ≡ front ++ (e.inserted ++ drop (e.to - e.from) rear)
unfolding edited
edited-append e front rear at_end ordered =
    let span : e.to ≡ e.from + (e.to - e.from) = omega arith in
    ap₂ (λ (x y : List ℕ). x ++ (e.inserted ++ y)) (take_at e.from front rear (sym at_end))
      (ap (λ (n : ℕ). drop n (front ++ rear)) span
        ∙ drop_past e.from (e.to - e.from) front rear (sym at_end))

pub length-edited :
    (e : VisibleEdit) (text : List ℕ)
    → e.from ≤ e.to
    → e.to ≤ length text
    → length (edited e text) ≡ e.from + length e.inserted + (length text - e.to)
unfolding edited
length-edited e text ordered within = omega (
  arith,
  length-append (take e.from text) (e.inserted ++ drop e.to text),
  length-append e.inserted (drop e.to text),
  length-take_le e.from text (omega arith),
  length-drop e.to text,
)

empty_list : (l : List ℕ) → is_empty l ≡ true → l ≡ []
empty_list [] h = refl
empty_list (x ∷ l) h = absurd (ground arith)

-- An insertion where the one before it ended.
extended-edited :
    (p e : VisibleEdit) (text : List ℕ)
    → p.from ≤ length text
    → e.from ≡ e.to
    → e.from ≡ p.from + length p.inserted
    → edited (extended p e) text ≡ edited e (edited p text)
unfolding edited
extended-edited p e text within point follows =
    let front = take p.from text ++ p.inserted in
    let end : e.from ≡ length front = omega (
      arith,
      follows,
      length-append (take p.from text) p.inserted,
      length-take_le p.from text within,
    ) in
    let gap : e.to - e.from ≡ 0 = omega (arith, point) in
    let apart : edited p text ≡ front ++ drop p.to text =
      sym (append_assoc (take p.from text) p.inserted (drop p.to text)) in
    sym (
      ap (edited e) apart
      ∙ edited-append e front (drop p.to text) end (omega (arith, point))
      ∙ ap (λ (n : ℕ). front ++ (e.inserted ++ drop n (drop p.to text))) gap
      ∙ append_assoc (take p.from text) p.inserted (e.inserted ++ drop p.to text)
      ∙ ap (λ l. take p.from text ++ l) (sym (append_assoc p.inserted e.inserted (drop p.to text))))

-- A deletion at the cursor of the one before it.
widened-edited :
    (p e : VisibleEdit) (text : List ℕ)
    → p.from ≤ length text
    → e.from ≤ e.to
    → e.from ≡ p.from
    → p.inserted ≡ []
    → e.inserted ≡ []
    → p.to + (e.to - e.from) < u64_limit
    → edited (widened p e) text ≡ edited e (edited p text)
unfolding edited
widened-edited p e text within ordered same none_p none_e fits =
    let reach : saturating_add p.to (e.to - e.from) ≡ p.to + (e.to - e.from) = omega arith in
    let front = take p.from text in
    let end : e.from ≡ length front = omega (arith, same, length-take_le p.from text within) in
    let bare : edited p text ≡ front ++ drop p.to text =
      ap (λ (l : List ℕ). front ++ (l ++ drop p.to text)) none_p in
    let nothing : edited (widened p e) text
        ≡ front ++ drop (saturating_add p.to (e.to - e.from)) text =
      ap (λ (l : List ℕ). front ++ (l ++ drop (saturating_add p.to (e.to - e.from)) text)) none_p in
    nothing
    ∙ ap (λ (n : ℕ). front ++ drop n text) reach
    ∙ ap (λ (l : List ℕ). front ++ l) (sym (drop-drop (e.to - e.from) p.to text))
    ∙ ap (λ (l : List ℕ). front ++ (l ++ drop (e.to - e.from) (drop p.to text))) (sym none_e)
    ∙ sym (edited-append e front (drop p.to text) end ordered)
    ∙ ap (edited e) (sym bare)

-- A coalesced pair replays as the pair, and lies within the same texts.
abbrev Replays : List VisibleEdit → List VisibleEdit → List ℕ → Type 0
Replays edits others text = (replay edits text ≡ replay others text) × IsApplicable edits text

one :
    (m p e : VisibleEdit) (text : List ℕ)
    → edited m text ≡ edited e (edited p text)
    → IsApplicable (p ∷ e ∷ []) text
    → m.from ≤ m.to
    → m.to ≤ length text
    → Replays (m ∷ []) (p ∷ e ∷ []) text
unfolding replay
one m p e text same h ordered within =
    (same, (h.0, ordered, within, subst (λ l. length l < u64_limit) (sym same) h.3.3))

coalesce-Replays :
    (p e : VisibleEdit) (text : List ℕ)
    → IsApplicable (p ∷ e ∷ []) text
    → Replays (coalesce p e) (p ∷ e ∷ []) text
unfolding coalesce
coalesce-Replays p e text h =
    let len = length-edited p text h.1 h.2 in
    elim (Bool-cases (appends p e)) [
      | inl a ↦ rw a (
          one (extended p e) p e text
            (extended-edited p e text (omega (arith, h)) (ground arith) (ground (arith, len, h))) h
            h.1 h.2)
      | inr not_a ↦ elim (Bool-cases (deletes_on p e)) [
        | inl d ↦
            let none_p = empty_list p.inserted (ground arith) in
            let none_e = empty_list e.inserted (ground arith) in
            rw (not_a, d)
              (one (widened p e) p e text
                (widened-edited p e text (omega (arith, h)) (omega (arith, h)) (ground arith) none_p
                  none_e (ground (arith, len, h)))
                h (ground (arith, h)) (ground (arith, len, h)))
        | inr not_d ↦ elim (Bool-cases (replaces p e)) [
          | inl r ↦
              rw (not_a, not_d, r)
                (one (extended p e) p e text
                  (extended-edited p e text (omega (arith, h)) (ground arith)
                    (ground (arith, len, h)))
                  h h.1 h.2)
          | inr not_r ↦ rw (not_a, not_d, not_r) (refl, h)
        ]
      ]
    ]

push_last-Replays :
    (edits : List VisibleEdit) (e : VisibleEdit) (text : List ℕ)
    → IsApplicable (edits ++ (e ∷ [])) text
    → Replays (push_last edits e) (edits ++ (e ∷ [])) text
unfolding push_last replay
push_last-Replays [] e text h = (refl, h)
push_last-Replays (p ∷ []) e text h = coalesce-Replays p e text h
push_last-Replays (p ∷ q ∷ edits) e text h =
    let rest = push_last-Replays (q ∷ edits) e (edited p text) h.3 in
    (rest.0, (h.0, h.1, h.2, rest.1))

noop-edited :
    (e : VisibleEdit) (text : List ℕ) → e.from ≡ e.to → e.inserted ≡ [] → edited e text ≡ text
unfolding edited
noop-edited e text point nothing =
    ap (λ (l : List ℕ). take e.from text ++ (l ++ drop e.to text)) nothing
    ∙ ap (λ (n : ℕ). take e.from text ++ drop n text) (sym point)
    ∙ take-append-drop e.from text

noop-Replays :
    (edits : List VisibleEdit) (e : VisibleEdit) (text : List ℕ)
    → e.from ≡ e.to
    → e.inserted ≡ []
    → IsApplicable (edits ++ (e ∷ [])) text
    → Replays edits (edits ++ (e ∷ [])) text
unfolding replay
noop-Replays [] e text point nothing h = (sym (noop-edited e text point nothing), h.0)
noop-Replays (p ∷ edits) e text point nothing h =
    let rest = noop-Replays edits e (edited p text) point nothing h.3 in
    (rest.0, (h.0, h.1, h.2, rest.1))

-- If the edits and then a new one each lie within the text they meet, and the texts within
-- `usize`, then the coalesced list turns the text into what the edits and the new one make of it,
-- and its edits lie within the texts they meet too.
pub push_visible_edit-Replays :
    (edits : List VisibleEdit) (e : VisibleEdit) (text : List ℕ)
    → IsApplicable (edits ++ (e ∷ [])) text
    → (replay (push_visible_edit edits e) text ≡ replay (edits ++ (e ∷ [])) text)
      × IsApplicable (push_visible_edit edits e) text
unfolding push_visible_edit
push_visible_edit-Replays edits e text h =
    elim (Bool-cases ((e.from == e.to) && is_empty e.inserted)) [
      | inl noop ↦
          rw noop
            (noop-Replays edits e text (ground arith) (empty_list e.inserted (ground arith)) h)
      | inr some_edit ↦ rw some_edit (push_last-Replays edits e text h)
    ]
