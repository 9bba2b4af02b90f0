-- ===== src/Rooms/Locks.antt =====
-- The mutexes of RoomManager.cpp and Room.cpp, as several workers take them: `_mutex` of the manager and
-- `_mutex` of each room. The database's mutex is left out: who holds it waits for no other. Whether a
-- room's set of sessions is empty, when its last session may have left, is left open.
pub mod Holders
pub mod Deadlock
use yuwibo_server.Prelude.{
  ℕ, zero, suc, ◌≡◌, ◌≢◌, refl, sym, ap, ◌∙◌, Bool, true, false, not, ◌&&◌, ◌||◌, List, [], ◌∷◌,
  Option, some, arith, ◌==◌, ==_iff, set, get_elem?, get_elem?-set_other, get_elem?-set_same, subst,
  some-injective, Bool-cases, inl, inr, ◌⊎◌,
}

-- Where a worker's thread stands.
pub data Place : Type 0 where
  -- It holds no mutex.
  outside : Place
  -- In CreateRoom, before the manager's mutex; with it, before the new room's; with both; and after
  -- Enter has returned.
  before_create : Place
  before_enter : ℕ → Place
  in_enter : ℕ → Place
  after_enter : Place
  -- In Enter, Leave or Broadcast of a room that is there: before its mutex, and with it.
  before_room : ℕ → Place
  in_room : ℕ → Place
  -- In RemoveRoom, called by Leave: before the manager's mutex, with both, and after it.
  before_remove : ℕ → Place
  in_remove : ℕ → Place
  after_remove : ℕ → Place

pub data Mutex : Type 0 where
  of_manager : Mutex
  of_room : ℕ → Mutex

abbrev pub holds : Mutex → Place → Bool
holds of_manager (before_enter k) = true
holds of_manager (in_enter k) = true
holds of_manager after_enter = true
holds of_manager (in_remove k) = true
holds of_manager p = false
holds (of_room n) (in_enter k) = k == n
holds (of_room n) (in_room k) = k == n
holds (of_room n) (before_remove k) = k == n
holds (of_room n) (in_remove k) = k == n
holds (of_room n) (after_remove k) = k == n
holds (of_room n) p = false

abbrev pub is_held : Mutex → List Place → Bool
is_held m [] = false
is_held m (p ∷ ps) = holds m p || is_held m ps

-- What a thread does next: it goes on, or takes a mutex.
pub data Moves : Place → Place → Type 0 where
  creates : Moves outside before_create
  visits : (k : ℕ) → Moves outside (before_room k)
  enters : (k : ℕ) → Moves (in_enter k) after_enter
  created : Moves after_enter outside
  visited : (k : ℕ) → Moves (in_room k) outside
  empties : (k : ℕ) → Moves (in_room k) (before_remove k)
  removes : (k : ℕ) → Moves (in_remove k) (after_remove k)
  removed : (k : ℕ) → Moves (after_remove k) outside

pub data Takes : Mutex → Place → Place → Type 0 where
  takes_manager : (k : ℕ) → Takes of_manager before_create (before_enter k)
  takes_new_room : (k : ℕ) → Takes (of_room k) (before_enter k) (in_enter k)
  takes_room : (k : ℕ) → Takes (of_room k) (before_room k) (in_room k)
  takes_manager_too : (k : ℕ) → Takes of_manager (before_remove k) (in_remove k)

-- One step of one thread; a mutex is taken only if nobody holds it.
pub data Step (ps : List Place) : List Place → Type 0 where
  goes_on : (i : ℕ) (p p' : Place) → get_elem? ps i ≡ some p → Moves p p' → Step ps (set ps i p')
  takes :
      (i : ℕ) (m : Mutex) (p p' : Place)
      → get_elem? ps i ≡ some p
      → Takes m p p'
      → is_held m ps ≡ false
      → Step ps (set ps i p')

pub data Steps (ps : List Place) : List Place → Type 0 where
  none_taken : Steps ps ps
  then_step : (qs rs : List Place) → Steps ps qs → Step qs rs → Steps ps rs

-- A thread waits for a mutex that is held.
abbrev pub IsBlocked : List Place → Place → Type 0
IsBlocked ps p =
    ((p' : Place) → Moves p p' → ⊥)
    × ((m : Mutex) (p' : Place) → Takes m p p' → is_held m ps ≡ true)

-- One thread is to enter the room that it creates, and another one holds that room's mutex and is to
-- remove the room.
abbrev pub IsCrossed : ℕ → ℕ → ℕ → List Place → Type 0
IsCrossed i j k ps =
    (get_elem? ps i ≡ some (before_enter k)) × (get_elem? ps j ≡ some (before_remove k))
