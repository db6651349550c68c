-- ===== src/Replica/Snapshot/Install.antt =====
-- src/replica.rs: an installed snapshot is the state that was taken.
use mathlib.Core.List.{append-nil, append_assoc}
use esbt_web.Base.{◌≡◌, refl, ap, sym, subst, ◌∙◌, false, List, [], ◌∷◌, ◌++◌}
use esbt_web.Base.Table
use esbt_web.DocTree
use esbt_web.DocTree.{Atom, DocTree, atoms, contains}
use esbt_web.DocTree.Inorder.{is_found, insert-After}
use esbt_web.DocTree.Invariant.{IsDoc, insert-IsDoc, viewed-insert, found-contains, second}
use esbt_web.DocTree.Sorted
use esbt_web.DocTree.Sorted.{IsSorted, IsSplit, IsSorted-IsSplit, lookup-After}
use esbt_web.Replica.{Replica}
use esbt_web.Replica.Drain.Keeps.{IsSound}
use esbt_web.Replica.Snapshot.{Snapshot, snapshot, install_atoms, install_snapshot}

-- An atom above all of the document goes to its end.
append_last :
    (a : Atom) (t : DocTree) (rest : List Atom)
    → IsDoc t
    → IsSplit (atoms t) a rest
    → IsDoc (DocTree.insert a t).1 × (atoms (DocTree.insert a t).1 ≡ atoms t ++ (a ∷ []))
unfolding Sorted.insert Sorted.lookup
append_last a t rest d p =
    let l = atoms t in
    let absent : is_found (Sorted.lookup a.weight l) ≡ false = ap is_found (
      ap (Sorted.lookup a.weight) (sym (append-nil l))
      ∙ lookup-After a.weight p.pivot l [] d.1 p.below) in
    let new = sym (found-contains a.weight t p.pivot d) ∙ absent in
    (
      insert-IsDoc a t p.pivot d,
      second (viewed-insert a t p.pivot d new)
          ∙ ap (Sorted.insert a) (sym (append-nil l))
          ∙ insert-After a l [] p.pivot d.1 p.below,
    )

atoms-install_atoms :
    (l : List Atom) (t : DocTree)
    → IsDoc t
    → IsSorted (atoms t ++ l)
    → IsDoc (install_atoms l t) × (atoms (install_atoms l t) ≡ atoms t ++ l)
unfolding install_atoms
atoms-install_atoms [] t d s = (d, sym (append-nil (atoms t)))
atoms-install_atoms (a ∷ l) t d s =
    let step = append_last a t l d (IsSorted-IsSplit (atoms t) a l s) in
    let grown : atoms (DocTree.insert a t).1 ++ l ≡ atoms t ++ (a ∷ l) =
      ap (λ k. k ++ l) step.1 ∙ append_assoc (atoms t) (a ∷ []) l in
    let rest = atoms-install_atoms l (DocTree.insert a t).1 step.0 (subst IsSorted (sym grown) s) in
    (rest.0, rest.1 ∙ grown)

-- If the atoms of a snapshot ascend by weights in lowest terms, then the replica that installs it
-- is sound (stored sizes right, atoms ascending, queued operations on weights in lowest terms),
-- its own snapshot has the same atoms and receipts, and it keeps its site.
pub install_snapshot-IsSound :
    (snap : Snapshot) (r : Replica)
    → IsSorted snap.atoms
    → let after = install_snapshot snap r in
      IsSound after
      × ((snapshot after).atoms ≡ snap.atoms)
      × ((snapshot after).version ≡ snap.version)
      × ((snapshot after).insertions ≡ snap.insertions)
      × (after.site ≡ r.site)
unfolding install_snapshot snapshot atoms Table.lookup
install_snapshot-IsSound snap r s =
    let done = atoms-install_atoms snap.atoms DocTree.leaf (tt, tt) s in
    ((done.0, λ w. tt), done.1, refl, refl, refl)
