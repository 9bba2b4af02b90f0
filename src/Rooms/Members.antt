-- ===== src/Rooms/Members.antt =====
-- The set of sessions in a room: `insert` and `erase`.
use yuwibo_server.Prelude.{
  ℕ, ◌+◌, ◌≤◌, ◌≡◌, refl, ◌≢◌, true, false, ◌&&◌, not, List, [], ◌∷◌, arith, ◌==◌, length, ==_refl,
  ==_iff, ap, sym, ◌∙◌, subst, All, Bool-cases, inl, inr,
}
use mathlib.Core.Bool.{Bool-set}
use mathlib.Core.Logic.{∥∥₁_elim}
use mathlib.Core.List.{Perm, Permᴰ}
use yuwibo_server.Rooms.{mem, insert, erase}

-- No session twice.
abbrev pub Distinct : List ℕ → Type 0
Distinct [] = Unit {0}
Distinct (x ∷ xs) = (mem x xs ≡ false) × Distinct xs

pub mem-erase : (s t : ℕ) (xs : List ℕ) → mem t (erase s xs) ≡ (not (s == t) && mem t xs)
unfolding erase mem
mem-erase s t [] = ground arith
mem-erase s t (x ∷ xs) = ground (arith, mem-erase s t xs)

pub insert-Distinct : (s : ℕ) (xs : List ℕ) → Distinct xs → Distinct (insert s xs)
unfolding insert
insert-Distinct s xs h = ground arith

pub erase-Distinct : (s : ℕ) (xs : List ℕ) → Distinct xs → Distinct (erase s xs)
unfolding erase
erase-Distinct s [] h = tt
erase-Distinct s (x ∷ xs) h = ground (arith, erase-Distinct s xs, mem-erase s x xs)

pub length-insert : (s : ℕ) (xs : List ℕ) → length (insert s xs) ≤ length xs + 1
unfolding insert
length-insert s xs = ground arith

pub length-erase : (s : ℕ) (xs : List ℕ) → length (erase s xs) ≤ length xs
unfolding erase
length-erase s [] = omega arith
length-erase s (x ∷ xs) = ground (arith, length-erase s xs)

mem-permᴰ : (s : ℕ) {xs ys : List ℕ} → Permᴰ xs ys → mem s xs ≡ mem s ys
unfolding mem
mem-permᴰ s Permᴰ.nil = refl
mem-permᴰ s (Permᴰ.cons e d) = ground (arith, mem-permᴰ s d)
mem-permᴰ s (Permᴰ.swap e e') = ground arith
mem-permᴰ s (Permᴰ.trans d d') = mem-permᴰ s d ∙ mem-permᴰ s d'

-- The order in which a set is gone through does not matter for membership.
pub mem-perm : (s : ℕ) {xs ys : List ℕ} → Perm xs ys → mem s xs ≡ mem s ys
mem-perm s p = ∥∥₁_elim p (Bool-set _ _) (mem-permᴰ s)

-- A statement about all sessions, by membership.
pub All_of_mem : {P : ℕ → Type 0} (xs : List ℕ) → ((s : ℕ) → mem s xs ≡ true → P s) → All P xs
unfolding mem
All_of_mem [] h = tt
All_of_mem (x ∷ xs) h = (h x (rw ==_refl refl), All_of_mem xs (λ s m. h s (ground arith)))

pub mem-All : (P : ℕ → Type 0) (s : ℕ) (xs : List ℕ) → All P xs → mem s xs ≡ true → P s
unfolding mem
mem-All P s [] h m = cc
mem-All P s (x ∷ xs) h m = elim (Bool-cases (x == s)) [
  | inl same ↦ subst P ((==_iff x s).0 same) h.0
  | inr other ↦ mem-All P s xs h.1 (ground arith)
]

pub All-perm : (P : ℕ → Type 0) {xs ys : List ℕ} → Perm xs ys → All P ys → All P xs
All-perm P {xs} {ys} p h = All_of_mem xs (λ s m. mem-All P s ys h (sym (mem-perm s p) ∙ m))

pub ne-nil-perm : {xs ys : List ℕ} → Perm xs ys → ys ≢ [] → xs ≢ []
unfolding mem
ne-nil-perm {ys = []} p h e = h refl
ne-nil-perm {xs} {ys = y ∷ ys} p h e = cc (mem-perm y p, here, ap (mem y) e)
  where
    here : mem y (y ∷ ys) ≡ true
    here = rw ==_refl refl

pub insert-All : (P : ℕ → Type 0) (s : ℕ) (xs : List ℕ) → P s → All P xs → All P (insert s xs)
unfolding insert
insert-All P s xs p h = elim (Bool-cases (mem s xs)) [
  | inl old ↦ rw old h
  | inr new ↦ rw new (p, h)
]
