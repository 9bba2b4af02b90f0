-- ===== src/Rooms/Keys.antt =====
-- The key that `CreateRoom` chooses: its loop ends, and finds the least key that no room has.
use yuwibo_server.Prelude.{
  ℕ, zero, suc, ◌+◌, ◌-◌, ◌%◌, ◌≤◌, ◌<◌, ◌≡◌, refl, subst, ◌≢◌, List, none, some, Option-cases, inl,
  inr, arith, ==_false, length, Outcome, ok, u32_mod,
}
use yuwibo_server.Rooms.{Room, find_room, erase_room, find_free_key}
use yuwibo_server.Rooms.Map.{find-erase, length-erase-lt}

-- All keys below `n` are taken.
abbrev pub Taken : ℕ → List (ℕ × Room) → Type 0
Taken zero rooms = Unit {0}
Taken (suc n) rooms = (find_room n rooms ≢ none) × Taken n rooms

Taken-erase :
    (n k : ℕ) (rooms : List (ℕ × Room)) → n ≤ k → Taken n rooms → Taken n (erase_room k rooms)
Taken-erase zero k rooms h t = tt
Taken-erase (suc n) k rooms h t = (
  rw (find-erase k n rooms, ==_false k n (omega arith)) t.0,
  Taken-erase n k rooms (omega arith) t.1,
)

-- So many keys need as many rooms.
pub Taken-le : (n : ℕ) (rooms : List (ℕ × Room)) → Taken n rooms → n ≤ length rooms
Taken-le zero rooms t = omega arith
Taken-le (suc n) rooms t = omega (
  arith,
  length-erase-lt n rooms t.0,
  Taken-le n (erase_room n rooms) (Taken-erase n n rooms (omega arith) t.1),
)

-- The key, with what the loop has shown when it stops.
abbrev pub IsLeastFree : List (ℕ × Room) → Outcome ℕ → Type 0
IsLeastFree rooms out =
    (key : ℕ) × (out ≡ ok key)
    × (find_room key rooms ≡ none)
    × Taken key rooms
    × (key ≤ length rooms)

find_free_key_from :
    (fuel key : ℕ) (rooms : List (ℕ × Room))
    → Taken key rooms
    → length rooms < key + fuel
    → length rooms < u32_mod - 1
    → IsLeastFree rooms (find_free_key fuel key rooms)
unfolding find_free_key
find_free_key_from zero key rooms taken f small = absurd (omega (arith, Taken-le key rooms taken))
find_free_key_from (suc fuel) key rooms taken f small = elim (Option-cases (find_room key rooms)) [
  | inl free ↦ (key, rw (free, find_free_key) refl, free, taken, Taken-le key rooms taken)
  | inr (r, busy) ↦
      rw (busy, find_free_key)
        (find_free_key_from fuel ((key + 1) % u32_mod) rooms (next r busy) (omega (arith, here))
          small)
]
  where
    here : key ≤ length rooms
    here = Taken-le key rooms taken

    next : (r : Room) → find_room key rooms ≡ some r → Taken ((key + 1) % u32_mod) rooms
    next r busy =
        let above : suc key ≡ (key + 1) % u32_mod = omega (arith, here) in
        subst (λ n. Taken n rooms) above (λ e. cc, taken)

-- With fewer than 2 ^ 32 - 1 rooms, the loop of CreateRoom ends at the least key that is not in
-- the map, which is at most the number of rooms; the key does not wrap round.
pub find_free_key_lem :
    (rooms : List (ℕ × Room))
    → length rooms < u32_mod - 1
    → IsLeastFree rooms (find_free_key (suc (length rooms)) 0 rooms)
find_free_key_lem rooms small =
    find_free_key_from (suc (length rooms)) 0 rooms tt (omega arith) small
