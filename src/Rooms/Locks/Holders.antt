-- ===== src/Rooms/Locks/Holders.antt =====
-- Threads that all wait: who holds the mutexes that they wait for.
use yuwibo_server.Prelude.{
  ℕ, zero, suc, ◌≡◌, ◌≢◌, refl, ap, ◌∙◌, Bool, true, false, ◌||◌, List, [], ◌∷◌, some, arith,
  ==_iff, get_elem?, some-injective, Bool-cases, inl, inr,
}
use yuwibo_server.Rooms.Locks.{
  outside, before_create, before_enter, in_enter, after_enter, before_room, in_room, before_remove,
  in_remove, after_remove, Place, Mutex, of_manager, of_room, holds, is_held, enters, created,
  visited, removes, removed, takes_manager, takes_new_room, takes_room, takes_manager_too,
  IsBlocked, IsCrossed,
}

pub held_by :
    (m : Mutex) (ps : List Place)
    → is_held m ps ≡ true
    → (j : ℕ) × (p : Place) × (get_elem? ps j ≡ some p) × (holds m p ≡ true)
held_by m [] h = cc
held_by m (p ∷ ps) h = elim (Bool-cases (holds m p)) [
  | inl here ↦ (0, p, refl, here)
  | inr other ↦ let (j, q, e, held) = held_by m ps (rest (holds m p) other h) in (suc j, q, e, held)
]
  where
    rest : (b : Bool) → b ≡ false → (b || is_held m ps) ≡ true → is_held m ps ≡ true
    rest true n h = cc
    rest false n h = h

pub is_held_by :
    (m : Mutex) (ps : List Place) (j : ℕ) (p : Place)
    → get_elem? ps j ≡ some p
    → holds m p ≡ true
    → is_held m ps ≡ true
is_held_by m [] j p e h = cc
is_held_by m (q ∷ ps) zero p e h = first (is_held m ps) (ap (holds m) (some-injective e) ∙ h)
  where
    first : (b : Bool) {a : Bool} → a ≡ true → (a || b) ≡ true
    first b h = ground arith
is_held_by m (q ∷ ps) (suc j) p e h = later (holds m q) (is_held_by m ps j p e h)
  where
    later : (a : Bool) {b : Bool} → b ≡ true → (a || b) ≡ true
    later a h = ground arith

module _ (ps : List Place)
    (blocked : (i : ℕ) (p : Place) → get_elem? ps i ≡ some p → p ≢ outside → IsBlocked ps p) where
  -- Of blocked threads, one that holds a room's mutex is to remove the room.
  room_holder :
      (n j : ℕ) (p : Place)
      → get_elem? ps j ≡ some p
      → holds (of_room n) p ≡ true
      → get_elem? ps j ≡ some (before_remove n)
  room_holder n j (in_enter k) f h =
      absurd ((blocked j (in_enter k) f (λ q. cc)).0 after_enter (enters k))
  room_holder n j (in_room k) f h =
      absurd ((blocked j (in_room k) f (λ q. cc)).0 outside (visited k))
  room_holder n j (before_remove k) f h = f ∙ ap (λ x. some (before_remove x)) ((==_iff k n).0 h)
  room_holder n j (in_remove k) f h =
      absurd ((blocked j (in_remove k) f (λ q. cc)).0 (after_remove k) (removes k))
  room_holder n j (after_remove k) f h =
      absurd ((blocked j (after_remove k) f (λ q. cc)).0 outside (removed k))
  room_holder n j outside f h = cc
  room_holder n j before_create f h = cc
  room_holder n j (before_enter k) f h = cc
  room_holder n j after_enter f h = cc
  room_holder n j (before_room k) f h = cc

  abbrev pub Crossed : Type 0
  Crossed = (i : ℕ) × (j : ℕ) × (k : ℕ) × IsCrossed i j k ps

  entering : (i k : ℕ) → get_elem? ps i ≡ some (before_enter k) → Crossed
  entering i k e =
      let (j, p, f, h) =
        held_by (of_room k) ps (
          (blocked i (before_enter k) e (λ q. cc)).1 (of_room k) (in_enter k) (takes_new_room k)) in
      (i, j, k, (e, room_holder k j p f h))

  manager_holder :
      (j : ℕ) (p : Place) → get_elem? ps j ≡ some p → holds of_manager p ≡ true → Crossed
  manager_holder j (before_enter k) f h = entering j k f
  manager_holder j (in_enter k) f h =
      absurd ((blocked j (in_enter k) f (λ q. cc)).0 after_enter (enters k))
  manager_holder j after_enter f h = absurd ((blocked j after_enter f (λ q. cc)).0 outside created)
  manager_holder j (in_remove k) f h =
      absurd ((blocked j (in_remove k) f (λ q. cc)).0 (after_remove k) (removes k))
  manager_holder j outside f h = cc
  manager_holder j before_create f h = cc
  manager_holder j (before_room k) f h = cc
  manager_holder j (in_room k) f h = cc
  manager_holder j (before_remove k) f h = cc
  manager_holder j (after_remove k) f h = cc

  removing : (j k : ℕ) → get_elem? ps j ≡ some (before_remove k) → Crossed
  removing j k e =
      let (i, p, f, h) = held_by of_manager ps (
        (blocked j (before_remove k) e (λ q. cc)).1 of_manager (in_remove k)
          (takes_manager_too k)) in
      manager_holder i p f h

  pub blocked-Crossed : (i : ℕ) (p : Place) → get_elem? ps i ≡ some p → p ≢ outside → Crossed
  blocked-Crossed i outside e inside = absurd (inside refl)
  blocked-Crossed i before_create e inside =
      let (j, p, f, h) =
        held_by of_manager ps
          ((blocked i before_create e inside).1 of_manager (before_enter 0) (takes_manager 0)) in
      manager_holder j p f h
  blocked-Crossed i (before_enter k) e inside = entering i k e
  blocked-Crossed i (in_enter k) e inside =
      absurd ((blocked i (in_enter k) e inside).0 after_enter (enters k))
  blocked-Crossed i after_enter e inside =
      absurd ((blocked i after_enter e inside).0 outside created)
  blocked-Crossed i (before_room k) e inside =
      let (j, p, f, h) =
        held_by (of_room k) ps
          ((blocked i (before_room k) e inside).1 (of_room k) (in_room k) (takes_room k)) in
      removing j k (room_holder k j p f h)
  blocked-Crossed i (in_room k) e inside =
      absurd ((blocked i (in_room k) e inside).0 outside (visited k))
  blocked-Crossed i (before_remove k) e inside = removing i k e
  blocked-Crossed i (in_remove k) e inside =
      absurd ((blocked i (in_remove k) e inside).0 (after_remove k) (removes k))
  blocked-Crossed i (after_remove k) e inside =
      absurd ((blocked i (after_remove k) e inside).0 outside (removed k))
