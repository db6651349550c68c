-- ===== src/Examples/Documents.antt =====
-- src/rbtree.rs at a document of two atoms.
use esbt_web.Base.{◌≡◌, refl, List, [], ◌∷◌}
use esbt_web.Base.Int.{pos}
use esbt_web.Weight
use esbt_web.Weight.{Weight}
use esbt_web.DocTree.{Atom, DocTree, index_of, lower_bound, insert, atoms}
use esbt_web.DocTree.Delete.{delete}
use esbt_web.DocTree.Sorted
use esbt_web.DocTree.Sorted.{IsSorted}
use esbt_web.Fraction.{cmp_rat}
use esbt_web.DocTree.Search.{ranked, lower_bound-atoms, index_of-atoms}
use esbt_web.DocTree.Inorder.{viewed, insert_new, insert-insert_new}
use esbt_web.DocTree.Removal.{remove_found, delete-remove_found}
use esbt_web.DocTree.Invariant.{IsDoc, insert-IsDoc, delete-IsDoc}
use esbt_web.Examples.Identifiers.{third, third-IsFraction, half-IsFraction, sample}

abbrev pub left : Weight
left = Weight.new third (pos 0) (2 ∷ []) 9

abbrev pub first : Atom
first = record { weight = left; unit = 72; counter = 1 }

abbrev pub last : Atom
last = record { weight = sample; unit = 105; counter = 2 }

abbrev pub one : DocTree
one = (insert last DocTree.leaf).1

abbrev pub two : DocTree
two = (insert first one).1

one-IsDoc : IsDoc one
unfolding atoms
one-IsDoc = insert-IsDoc last DocTree.leaf half-IsFraction (tt, tt)

pub two-IsDoc : IsDoc two
two-IsDoc = insert-IsDoc first one third-IsFraction one-IsDoc

lower_bound-atoms_example : lower_bound sample two ≡ Sorted.rank sample (atoms two)
lower_bound-atoms_example = lower_bound-atoms sample two half-IsFraction two-IsDoc.0 two-IsDoc.1

index_of-atoms_example :
    index_of sample 0 two
    ≡ ranked (Sorted.lookup sample (atoms two)) (Sorted.rank sample (atoms two))
index_of-atoms_example = index_of-atoms sample two half-IsFraction two-IsDoc.0 two-IsDoc.1

insert-insert_new_example : viewed (insert first one) ≡ insert_new first (atoms one)
insert-insert_new_example = insert-insert_new first one third-IsFraction one-IsDoc.1

delete-remove_found_example : viewed (delete left two) ≡ remove_found left (atoms two)
delete-remove_found_example = delete-remove_found left two third-IsFraction two-IsDoc.1

insert-IsDoc_example : IsDoc (insert first one).1
insert-IsDoc_example = insert-IsDoc first one third-IsFraction one-IsDoc

delete-IsDoc_example : IsDoc (delete left two).1
delete-IsDoc_example = delete-IsDoc left two third-IsFraction two-IsDoc

-- The atoms of the document, as a snapshot has them.
abbrev pub listed : List Atom
listed = first ∷ last ∷ []

pub listed-IsSorted : IsSorted listed
unfolding Weight.cmp cmp_rat
listed-IsSorted = (third-IsFraction, (refl, tt), (half-IsFraction, tt, tt))
