-- ===== src/Rooms/Locks/Deadlock.antt =====
-- The one way in which the mutexes of the rooms block for ever.
use yuwibo_server.Prelude.{
  ℕ, ◌≡◌, ◌≢◌, refl, sym, ap, ◌∙◌, Bool, true, false, List, some, arith, ◌==◌, ==_iff, get_elem?,
  get_elem?-set_other, subst, some-injective, Bool-cases, inl, inr,
}
use yuwibo_server.Rooms.Locks.{
  outside, before_enter, before_remove, Place, Mutex, of_manager, of_room, is_held, creates, visits,
  enters, created, visited, empties, removes, removed, Moves, takes_manager, takes_new_room,
  takes_room, takes_manager_too, Takes, goes_on, takes, Step, none_taken, then_step, Steps,
  IsBlocked, IsCrossed,
}
use yuwibo_server.Rooms.Locks.Holders.{is_held_by, blocked-Crossed}

-- The room that a thread is about.
abbrev room_of : Place → ℕ
room_of (before_enter k) = k
room_of (before_remove k) = k
room_of p = 0

-- A place where a thread can only take one mutex.
abbrev pub WaitsFor : Mutex → Place → Type 0
WaitsFor m p = ((p' : Place) → Moves p p' → ⊥) × ((n : Mutex) (p' : Place) → Takes n p p' → n ≡ m)

pub before_enter-WaitsFor : (k : ℕ) (p : Place) → p ≡ before_enter k → WaitsFor (of_room k) p
before_enter-WaitsFor k p e = (λ p' m. goes p' p m e, λ n p' t. asks n p p' t e)
  where
    goes : (p' p : Place) → Moves p p' → p ≡ before_enter k → ⊥
    goes p' p creates e = cc
    goes p' p (visits n) e = cc
    goes p' p (enters n) e = cc
    goes p' p created e = cc
    goes p' p (visited n) e = cc
    goes p' p (empties n) e = cc
    goes p' p (removes n) e = cc
    goes p' p (removed n) e = cc

    asks : (n : Mutex) (p p' : Place) → Takes n p p' → p ≡ before_enter k → n ≡ of_room k
    asks n p p' (takes_manager j) e = cc
    asks n p p' (takes_new_room j) e = ap (λ q. of_room (room_of q)) e
    asks n p p' (takes_room j) e = cc
    asks n p p' (takes_manager_too j) e = cc

pub before_remove-WaitsFor : (k : ℕ) (p : Place) → p ≡ before_remove k → WaitsFor of_manager p
before_remove-WaitsFor k p e = (λ p' m. goes p' p m e, λ n p' t. asks n p p' t e)
  where
    goes : (p' p : Place) → Moves p p' → p ≡ before_remove k → ⊥
    goes p' p creates e = cc
    goes p' p (visits n) e = cc
    goes p' p (enters n) e = cc
    goes p' p created e = cc
    goes p' p (visited n) e = cc
    goes p' p (empties n) e = cc
    goes p' p (removes n) e = cc
    goes p' p (removed n) e = cc

    asks : (n : Mutex) (p p' : Place) → Takes n p p' → p ≡ before_remove k → n ≡ of_manager
    asks n p p' (takes_manager j) e = refl
    asks n p p' (takes_new_room j) e = cc
    asks n p p' (takes_room j) e = cc
    asks n p p' (takes_manager_too j) e = refl

pub WaitsFor-IsBlocked :
    (ps : List Place) (m : Mutex) (p : Place) → WaitsFor m p → is_held m ps ≡ true → IsBlocked ps p
WaitsFor-IsBlocked ps m p waits held =
    (waits.0, λ n p' t. ap (λ x. is_held x ps) (waits.1 n p' t) ∙ held)

-- A thread that waits for a mutex that is held stays where it is.
stays :
    (ps qs : List Place) (i : ℕ) (m : Mutex) (p : Place)
    → get_elem? ps i ≡ some p
    → WaitsFor m p
    → is_held m ps ≡ true
    → Step ps qs
    → get_elem? qs i ≡ some p
stays ps qs i m p here waits held (goes_on a q q' there moves) = elim (Bool-cases (a == i)) [
  | inl same ↦ absurd (waits.0 q' (subst (λ x. Moves x q') (is_same same there) moves))
  | inr other ↦ get_elem?-set_other ps a i q' (λ e. differs other e) ∙ here
]
  where
    is_same : (a == i) ≡ true → get_elem? ps a ≡ some q → q ≡ p
    is_same same there = some-injective (sym there ∙ ap (get_elem? ps) ((==_iff a i).0 same) ∙ here)

    differs : (a == i) ≡ false → a ≡ i → ⊥
    differs h e = ground arith
stays ps qs i m p here waits held (takes a n q q' there taken free) = elim (Bool-cases (a == i)) [
  | inl same ↦
      let wanted : n ≡ m = waits.1 n q' (subst (λ x. Takes n x q') (is_same same there) taken) in
      absurd (both (sym (ap (λ x. is_held x ps) wanted) ∙ free) held)
  | inr other ↦ get_elem?-set_other ps a i q' (λ e. differs other e) ∙ here
]
  where
    is_same : (a == i) ≡ true → get_elem? ps a ≡ some q → q ≡ p
    is_same same there = some-injective (sym there ∙ ap (get_elem? ps) ((==_iff a i).0 same) ∙ here)

    differs : (a == i) ≡ false → a ≡ i → ⊥
    differs h e = ground arith

    both : {b : Bool} → b ≡ false → b ≡ true → ⊥
    both f t = cc

IsCrossed-Step :
    (i j k : ℕ) (ps qs : List Place) → IsCrossed i j k ps → Step ps qs → IsCrossed i j k qs
IsCrossed-Step i j k ps qs (e, f) step = (
  stays ps qs i (of_room k) (before_enter k) e (before_enter-WaitsFor k (before_enter k) refl)
      (is_held_by (of_room k) ps j (before_remove k) f same) step,
  stays ps qs j of_manager (before_remove k) f (before_remove-WaitsFor k (before_remove k) refl)
      (is_held_by of_manager ps i (before_enter k) e refl) step,
)
  where
    same : (k == k) ≡ true
    same = ground arith

IsCrossed-Steps :
    (i j k : ℕ) (ps qs : List Place) → IsCrossed i j k ps → Steps ps qs → IsCrossed i j k qs
IsCrossed-Steps i j k ps qs c none_taken = c
IsCrossed-Steps i j k ps qs c (then_step rs _ steps step) =
    IsCrossed-Step i j k rs qs (IsCrossed-Steps i j k ps rs c steps) step

-- If every thread that is in an operation waits for a mutex that is held, and there is such a
-- thread, then one thread is to enter the room that it creates, and another one holds that room's
-- mutex and is to remove the room; and then these two wait in every state that any steps lead to.
pub deadlock-IsCrossed :
    (ps : List Place) (i : ℕ) (p : Place)
    → ((i : ℕ) (p : Place) → get_elem? ps i ≡ some p → p ≢ outside → IsBlocked ps p)
    → get_elem? ps i ≡ some p
    → p ≢ outside
    → (i : ℕ) × (j : ℕ) × (k : ℕ) × IsCrossed i j k ps
      × ((qs : List Place) → Steps ps qs → IsCrossed i j k qs)
deadlock-IsCrossed ps i p blocked here inside =
    let (a, b, k, crossed) = blocked-Crossed ps blocked i p here inside in
    (a, b, k, crossed, λ qs steps. IsCrossed-Steps a b k ps qs crossed steps)
