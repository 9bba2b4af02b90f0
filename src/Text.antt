-- ===== src/Text.antt =====
-- `std::string` as a sequence of bytes.
use yuwibo_server.Prelude.{
  ℕ, ◌≡◌, refl, Bool, true, false, ◌&&◌, ◌||◌, List, [], ◌∷◌, ◌++◌, ◌==◌, ap, Bool-cases, arith,
  inl, inr, if◌then◌else◌,
}

abbrev pub Text : Type 0
Text = List ℕ

-- `operator==`
unfoldable pub text_eq : Text → Text → Bool
text_eq [] [] = true
text_eq [] (y ∷ ys) = false
text_eq (x ∷ xs) [] = false
text_eq (x ∷ xs) (y ∷ ys) = x == y && text_eq xs ys

unfoldable pub is_prefix : Text → Text → Bool
is_prefix [] text = true
is_prefix (x ∷ xs) [] = false
is_prefix (x ∷ xs) (y ∷ ys) = x == y && is_prefix xs ys

-- `text.find(part) != std::string::npos`
unfoldable pub contains : Text → Text → Bool
unfolding is_prefix
contains part [] = is_prefix part []
contains part (y ∷ ys) = is_prefix part (y ∷ ys) || contains part ys

-- A `char` array read as a C string ends at the first NUL.
unfoldable pub c_string : List ℕ → Text
c_string [] = []
c_string (x ∷ xs) = if x == 0 then [] else x ∷ c_string xs

pub text_eq_refl : (t : Text) → text_eq t t ≡ true
unfolding text_eq
text_eq_refl [] = refl
text_eq_refl (x ∷ xs) = ground (arith, text_eq_refl xs)

pub text_eq→eq : (t u : Text) → text_eq t u ≡ true → t ≡ u
unfolding text_eq
text_eq→eq [] [] h = refl
text_eq→eq [] (y ∷ ys) h = cc
text_eq→eq (x ∷ xs) [] h = cc
text_eq→eq (x ∷ xs) (y ∷ ys) h = ground (arith, text_eq→eq xs ys)

-- `part` occurs in `text`.
abbrev pub Occurs : Text → Text → Type 0
Occurs part text = (before : Text) × (after : Text) × (text ≡ before ++ (part ++ after))

is_prefix_sound :
    (part text : Text) → is_prefix part text ≡ true → (after : Text) × (text ≡ part ++ after)
unfolding is_prefix
is_prefix_sound [] text h = (text, refl)
is_prefix_sound (x ∷ xs) [] h = cc
is_prefix_sound (x ∷ xs) (y ∷ ys) h =
    let (after, e) = is_prefix_sound xs ys (ground arith) in (after, ground arith)

is_prefix_complete : (part after : Text) → is_prefix part (part ++ after) ≡ true
unfolding is_prefix
is_prefix_complete [] after = refl
is_prefix_complete (x ∷ xs) after = ground (arith, is_prefix_complete xs after)

pub contains_sound : (part text : Text) → contains part text ≡ true → Occurs part text
unfolding contains
contains_sound part [] h = let (after, e) = is_prefix_sound part [] h in ([], after, e)
contains_sound part (y ∷ ys) h = elim (Bool-cases (is_prefix part (y ∷ ys))) [
  | inl here ↦ let (after, e) = is_prefix_sound part (y ∷ ys) here in ([], after, e)
  | inr not_here ↦
      let (before, after, e) = contains_sound part ys (ground arith) in
      (y ∷ before, after, ap (◌∷◌ y) e)
]

contains_prefix : (part text : Text) → is_prefix part text ≡ true → contains part text ≡ true
unfolding contains
contains_prefix part [] h = h
contains_prefix part (y ∷ ys) h = ground arith

pub contains_complete :
    (part before after : Text) → contains part (before ++ (part ++ after)) ≡ true
unfolding contains
contains_complete part [] after = contains_prefix part _ (is_prefix_complete part after)
contains_complete part (x ∷ before) after = ground (arith, contains_complete part before after)
