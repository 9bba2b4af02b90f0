-- ===== src/Rooms/Map.antt =====
-- The map of rooms: `find`, `operator[]` and `erase` against one another.
use yuwibo_server.Prelude.{
  ℕ, suc, ◌≤◌, ◌<◌, ◌≡◌, refl, ◌≢◌, ◌∙◌, ap, Option, Bool, true, false, List, [], ◌∷◌, none, some,
  arith, ◌==◌, if◌then◌else◌, length,
}
use yuwibo_server.Rooms.{World, Room, find_room, put_room, erase_room}

pub find-put :
    (key j : ℕ) (room : Room) (rooms : List (ℕ × Room))
    → find_room j (put_room key room rooms) ≡ (if key == j then some room else find_room j rooms)
unfolding find_room put_room
find-put key j room [] = refl
find-put key j room ((k, r) ∷ rooms) = ground (arith, find-put key j room rooms)

pub find-erase :
    (key j : ℕ) (rooms : List (ℕ × Room))
    → find_room j (erase_room key rooms) ≡ (if key == j then none else find_room j rooms)
unfolding find_room erase_room
find-erase key j [] = ground arith
find-erase key j ((k, r) ∷ rooms) = ground (arith, find-erase key j rooms)

pub length-erase-le :
    (key : ℕ) (rooms : List (ℕ × Room)) → length (erase_room key rooms) ≤ length rooms
unfolding erase_room
length-erase-le key [] = omega arith
length-erase-le key ((k, r) ∷ rooms) = ground (arith, length-erase-le key rooms)

pub length-erase-lt :
    (key : ℕ) (rooms : List (ℕ × Room))
    → find_room key rooms ≢ none
    → length (erase_room key rooms) < length rooms
unfolding find_room erase_room
length-erase-lt key [] h = absurd (h refl)
length-erase-lt key ((k, r) ∷ rooms) h =
    ground (arith, length-erase-le key rooms, length-erase-lt key rooms)

pub length-put_le :
    (key : ℕ) (room : Room) (rooms : List (ℕ × Room))
    → length (put_room key room rooms) ≤ suc (length rooms)
unfolding put_room
length-put_le key room [] = omega arith
length-put_le key room ((k, r) ∷ rooms) = ground (arith, length-put_le key room rooms)

-- One entry of the map is set, or removed, and no session is deleted.
abbrev pub Sets : {D : Type 0} → ℕ → Option Room → World D → World D → Type 0
Sets key entry w w' =
    ((j : ℕ) → find_room j w'.rooms ≡ (if key == j then entry else find_room j w.rooms))
    × (w'.alive ≡ w.alive)

module _ {D : Type 0} where
  pub put-Sets :
      (key : ℕ) (room : Room) (w w' : World D)
      → w'.rooms ≡ put_room key room w.rooms
      → w'.alive ≡ w.alive
      → Sets key (some room) w w'
  put-Sets key room w w' e alive = (λ j. ap (find_room j) e ∙ find-put key j room w.rooms, alive)

  pub erase-Sets :
      (key : ℕ) (w w' : World D)
      → w'.rooms ≡ erase_room key w.rooms
      → w'.alive ≡ w.alive
      → Sets key none w w'
  erase-Sets key w w' e alive = (λ j. ap (find_room j) e ∙ find-erase key j w.rooms, alive)

  -- The later of two changes at one key counts.
  pub Sets-trans :
      (key : ℕ) (entry entry' : Option Room) (u v w : World D)
      → Sets key entry u v
      → Sets key entry' v w
      → Sets key entry' u w
  Sets-trans key entry entry' u v w (first, alive) (second, alive') =
      (λ j. second j ∙ covered (find_room j u.rooms) (key == j) (first j), alive' ∙ alive)
    where
      covered :
          {x : Option Room} (y : Option Room) (b : Bool)
          → x ≡ (if b then entry else y)
          → (if b then entry' else x) ≡ (if b then entry' else y)
      covered y true e = refl
      covered y false e = e
