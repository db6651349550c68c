-- ===== src/Examples/Edits.antt =====
-- src/op.rs and src/update.rs at concrete inputs.
use esbt_web.Base.{◌≡◌, ◌↔◌, none, [], ◌∷◌, arith}
use esbt_web.Error.{ok}
use esbt_web.Op.{Op, OpKind}
use esbt_web.Update.{from_canonical_operations}
use esbt_web.Update.Canonical.{Ascends, from_canonical_operations_iff}
use esbt_web.Update.VisibleEdit.{VisibleEdit, push_visible_edit}
use esbt_web.Update.VisibleEdit.Replay.{edited, replay, IsApplicable, push_visible_edit-Replays}
use esbt_web.Examples.Identifiers.{sample}

abbrev insertion : Op
insertion = record { kind = OpKind.ins 955; weight = sample; counter = 1; origin = 9; seq = 4 }

from_canonical_operations_iff_example :
    (from_canonical_operations (insertion ∷ []) ≡ ok (insertion ∷ []))
    ↔ Ascends none (insertion ∷ [])
from_canonical_operations_iff_example = from_canonical_operations_iff (insertion ∷ [])

-- A letter is typed after another, before a third.
abbrev typed : VisibleEdit
typed = record { from = 0; to = 0; inserted = 65 ∷ [] }

abbrev next : VisibleEdit
next = record { from = 1; to = 1; inserted = 66 ∷ [] }

typed-IsApplicable : IsApplicable (typed ∷ next ∷ []) (67 ∷ [])
unfolding edited
typed-IsApplicable = ground arith

push_visible_edit-Replays_example :
    (replay (push_visible_edit (typed ∷ []) next) (67 ∷ []) ≡ replay (typed ∷ next ∷ []) (67 ∷ []))
    × IsApplicable (push_visible_edit (typed ∷ []) next) (67 ∷ [])
push_visible_edit-Replays_example =
    push_visible_edit-Replays (typed ∷ []) next (67 ∷ []) typed-IsApplicable
