-- ===== src/Examples/Locks.antt =====
-- Two workers that block each other for ever.
use yuwibo_server.Prelude.{
  ℕ, zero, suc, ◌≡◌, ◌≢◌, refl, sym, List, [], ◌∷◌, some, get_elem?, some-injective,
}
use yuwibo_server.Rooms.Locks.{
  outside, before_create, before_enter, before_room, in_room, before_remove, Place, of_manager,
  of_room, creates, visits, visited, empties, takes_manager, takes_room, goes_on, takes, none_taken,
  then_step, Steps, IsBlocked, IsCrossed,
}
use yuwibo_server.Rooms.Locks.Deadlock.{
  before_enter-WaitsFor, before_remove-WaitsFor, WaitsFor-IsBlocked, deadlock-IsCrossed,
}

-- One worker creates room 0 and is about to enter it. Another one, which has joined that room
-- meanwhile and leaves it, is to remove it.
abbrev crossing : List Place
crossing = before_enter 0 ∷ before_remove 0 ∷ []

crossing-reached : Steps (outside ∷ outside ∷ []) crossing
crossing-reached =
    then_step (before_enter 0 ∷ in_room 0 ∷ []) crossing
      (then_step (before_enter 0 ∷ before_room 0 ∷ []) (before_enter 0 ∷ in_room 0 ∷ [])
        (then_step (before_enter 0 ∷ outside ∷ []) (before_enter 0 ∷ before_room 0 ∷ []) joined
          (goes_on 1 outside (before_room 0) refl (visits 0)))
        (takes 1 (of_room 0) (before_room 0) (in_room 0) refl (takes_room 0) refl))
      (goes_on 1 (in_room 0) (before_remove 0) refl (empties 0))
  where
    creating : Steps (outside ∷ outside ∷ []) (before_enter 0 ∷ outside ∷ [])
    creating =
        then_step (before_create ∷ outside ∷ []) (before_enter 0 ∷ outside ∷ [])
          (then_step (outside ∷ outside ∷ []) (before_create ∷ outside ∷ []) none_taken
            (goes_on 0 outside before_create refl creates))
          (takes 0 of_manager before_create (before_enter 0) refl (takes_manager 0) refl)

    joined : Steps (outside ∷ outside ∷ []) (before_enter 0 ∷ outside ∷ [])
    joined =
        then_step (before_enter 0 ∷ in_room 0 ∷ []) (before_enter 0 ∷ outside ∷ [])
          (then_step (before_enter 0 ∷ before_room 0 ∷ []) (before_enter 0 ∷ in_room 0 ∷ [])
            (then_step (before_enter 0 ∷ outside ∷ []) (before_enter 0 ∷ before_room 0 ∷ [])
              creating (goes_on 1 outside (before_room 0) refl (visits 0)))
            (takes 1 (of_room 0) (before_room 0) (in_room 0) refl (takes_room 0) refl))
          (goes_on 1 (in_room 0) outside refl (visited 0))

crossing-IsBlocked :
    (i : ℕ) (p : Place) → get_elem? crossing i ≡ some p → p ≢ outside → IsBlocked crossing p
crossing-IsBlocked zero p e inside =
    WaitsFor-IsBlocked crossing (of_room 0) p (before_enter-WaitsFor 0 p (sym (some-injective e)))
      refl
crossing-IsBlocked (suc zero) p e inside =
    WaitsFor-IsBlocked crossing of_manager p (before_remove-WaitsFor 0 p (sym (some-injective e)))
      refl
crossing-IsBlocked (suc (suc i)) p e inside = cc

deadlock-IsCrossed_example :
    (i : ℕ) × (j : ℕ) × (k : ℕ) × IsCrossed i j k crossing
    × ((qs : List Place) → Steps crossing qs → IsCrossed i j k qs)
deadlock-IsCrossed_example =
    deadlock-IsCrossed crossing 0 (before_enter 0) crossing-IsBlocked refl (λ e. cc)
