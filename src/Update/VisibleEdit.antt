-- ===== src/Update/VisibleEdit.antt =====
-- src/update.rs: visible edits, and how a run of them is coalesced.
pub mod Replay
use esbt_web.Base.{
  ℕ, ◌+◌, ◌-◌, ◌≡◌, refl, min, Bool, true, false, not, ◌&&◌, ◌||◌, Option, none, some, List, [],
  ◌∷◌, ◌++◌, length, ltb, leb, ◌==◌, if◌then◌else◌, u64_limit,
}

-- The coordinates are `usize` values, here of 64 bits.
pub record VisibleEdit : Type 0 where
  pub from : ℕ
  pub to : ℕ
  pub inserted : List ℕ

-- `usize::saturating_add`.
abbrev pub saturating_add : ℕ → ℕ → ℕ
saturating_add a b = min (a + b) (u64_limit - 1)

abbrev pub is_empty : List ℕ → Bool
is_empty l = length l == 0

-- `edit` goes on where the insertion of `previous` ended.
abbrev pub appends : VisibleEdit → VisibleEdit → Bool
appends previous edit =
    (edit.from == edit.to)
    && not (is_empty edit.inserted)
    && (edit.from == saturating_add previous.from (length previous.inserted))

-- Both delete at one cursor.
abbrev pub deletes_on : VisibleEdit → VisibleEdit → Bool
deletes_on previous edit =
    is_empty edit.inserted
    && is_empty previous.inserted
    && (edit.from == previous.from)
    && leb edit.from edit.to

-- An insertion where `previous` deleted.
abbrev pub replaces : VisibleEdit → VisibleEdit → Bool
replaces previous edit =
    is_empty previous.inserted
    && ltb previous.from previous.to
    && (edit.from == edit.to)
    && (edit.from == previous.from)

abbrev pub extended : VisibleEdit → VisibleEdit → VisibleEdit
extended previous edit = record {
  from = previous.from;
  to = previous.to;
  inserted = previous.inserted ++ edit.inserted;
}

abbrev pub widened : VisibleEdit → VisibleEdit → VisibleEdit
widened previous edit = record {
  from = previous.from;
  to = saturating_add previous.to (edit.to - edit.from);
  inserted = previous.inserted;
}

-- What becomes of the last edit and the new one.
unfoldable pub coalesce : VisibleEdit → VisibleEdit → List VisibleEdit
coalesce previous edit =
    if appends previous edit
    then extended previous edit ∷ []
    else if deletes_on previous edit
    then widened previous edit ∷ []
    else if replaces previous edit
    then extended previous edit ∷ []
    else previous ∷ edit ∷ []

-- The edit at the end of the list, which `edits.last_mut()` reaches.
unfoldable pub push_last : List VisibleEdit → VisibleEdit → List VisibleEdit
unfolding coalesce
push_last [] edit = edit ∷ []
push_last (previous ∷ []) edit = coalesce previous edit
push_last (first ∷ second ∷ edits) edit = first ∷ push_last (second ∷ edits) edit

-- `push_visible_edit`.
unfoldable pub push_visible_edit : List VisibleEdit → VisibleEdit → List VisibleEdit
unfolding push_last
push_visible_edit edits edit =
    if (edit.from == edit.to) && is_empty edit.inserted then edits else push_last edits edit
