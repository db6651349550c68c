-- ===== src/Examples/Allocator.antt =====
-- src/allocator.rs at the sentinels.
use esbt_web.Base.{◌≡◌, refl, true, none, some, List, [], ◌∷◌, arith}
use esbt_web.Base.Int.{pos}
use esbt_web.Fraction
use esbt_web.Fraction.{Fraction, gcd_loop, gcd, reduce, cmp_rat}
use esbt_web.Weight
use esbt_web.Weight.{Weight, sc_cmp}
use esbt_web.Allocator.Tracker
use esbt_web.Allocator.Tracker.{FractionKey, lookup}
use esbt_web.Allocator.Tracker.Rollback.{Change, changed, rollback-changed}
use esbt_web.Allocator.Adaptive.{AdaptiveDmaxConfig}
use esbt_web.Allocator
use esbt_web.Allocator.{
  Allocator, at_mediant, concluded, create_weight_inner, create_weight, enable_adaptive_dmax,
}
use esbt_web.Allocator.Between.{create_weight-IsWithin}
use esbt_web.Allocator.Total.{HasRoom, create_weight-HasRoom}

abbrev fresh : Allocator
fresh = Allocator.new (pos 65536) 2147483647 256

first_weight :
    (create_weight Weight.begin Weight.end 3 fresh).0
    ≡ some (Weight.new Fraction.one (pos 0) (4 ∷ []) 3)
unfolding create_weight create_weight_inner at_mediant concluded Fraction.mediant Fraction.new
    reduce gcd gcd_loop cmp_rat Weight.cmp sc_cmp
first_weight = refl

create_weight-IsWithin_example :
    (Weight.lt Weight.begin (Weight.new Fraction.one (pos 0) (4 ∷ []) 3) ≡ true)
    × (Weight.lt (Weight.new Fraction.one (pos 0) (4 ∷ []) 3) Weight.end ≡ true)
    × ((Weight.new Fraction.one (pos 0) (4 ∷ []) 3).site ≡ 3)
create_weight-IsWithin_example =
    create_weight-IsWithin fresh Weight.begin Weight.end
      (Weight.new Fraction.one (pos 0) (4 ∷ []) 3) 3 first_weight

whole_tree : HasRoom Weight.begin Weight.end
unfolding cmp_rat
whole_tree = HasRoom.before_right refl refl (omega arith)

create_weight-HasRoom_example :
    (w : Weight) × ((create_weight Weight.begin Weight.end 3 fresh).0 ≡ some w)
create_weight-HasRoom_example = create_weight-HasRoom fresh Weight.begin Weight.end 3 whole_tree

abbrev adaptive : AdaptiveDmaxConfig
adaptive = record { floor = pos 16; ceiling = pos 1024; window = 256; holdoff_windows = 4 }

abbrev changes : List Change
changes = Change.sets Fraction.one (pos 1) (pos 2) ∷ Change.pairs Fraction.begin ∷ []

rollback-changed_example :
    ((k : FractionKey)
      → lookup k (Tracker.rollback (changed changes (Tracker.begin Tracker.default).1)).map ≡ none)
    × ((Tracker.rollback (changed changes (Tracker.begin Tracker.default).1)).undo ≡ none)
unfolding lookup
rollback-changed_example = rollback-changed Tracker.default changes refl
