-- ===== src/Framing/Stream.antt =====
-- The byte stream that Session.cpp reads, described without a parser: whole packets one behind the
-- other, and then an unfinished one. Every stream of bytes is such a sequence, in one way only.
use yuwibo_server.Prelude.{
  ℕ, zero, suc, ◌+◌, ◌*◌, ◌≤◌, ◌<◌, ◌≡◌, refl, sym, ap, subst, ◌∙◌, List, [], ◌∷◌, ◌++◌, arith,
  length, take, drop, All, u16_mod, All-append, All-split, append_assoc, length-append, length-take,
  length-drop, take-append-drop, Bool-cases, ltb, ltb→lt, ltb→le, inl, inr,
}
use mathlib.Core.Path.{ap₂}
use yuwibo_server.Framing.{htons_bytes}

-- A packet on the wire: its length, and then its body.
abbrev pub encode : List ℕ → List ℕ
encode body = htons_bytes (length body) ++ body

abbrev pub encode_all : List (List ℕ) → List ℕ
encode_all [] = []
encode_all (body ∷ bodies) = encode body ++ encode_all bodies

-- No packet is complete yet: the length is not there, or more bytes are announced than there are.
abbrev pub IsPartial : List ℕ → Type 0
IsPartial [] = Unit {0}
IsPartial (x ∷ []) = Unit {0}
IsPartial (hi ∷ lo ∷ rest) = length rest < hi * 256 + lo

abbrev pub IsByte : ℕ → Type 0
IsByte x = x < 256

-- What a length field can announce.
abbrev pub Fits : List ℕ → Type 0
Fits body = length body < u16_mod

abbrev pub Splits : List ℕ → Type 0
Splits xs =
    (bodies : List (List ℕ)) × (rest : List ℕ) × (xs ≡ encode_all bodies ++ rest)
    × All Fits bodies
    × IsPartial rest

All-drop : (n : ℕ) (xs : List ℕ) → All IsByte xs → All IsByte (drop n xs)
All-drop zero xs h = h
All-drop (suc n) [] h = h
All-drop (suc n) (x ∷ xs) h = All-drop n xs h.1

encode-announced :
    (hi lo : ℕ) (xs : List ℕ)
    → hi < 256
    → lo < 256
    → hi * 256 + lo ≤ length xs
    → (encode (take (hi * 256 + lo) xs) ≡ hi ∷ lo ∷ take (hi * 256 + lo) xs)
      × Fits (take (hi * 256 + lo) xs)
encode-announced hi lo xs hh hl h = (ground (arith, size), omega (arith, size))
  where
    size : length (take (hi * 256 + lo) xs) ≡ hi * 256 + lo
    size = omega (arith, length-take (hi * 256 + lo) xs)

Splits-below : (fuel : ℕ) (xs : List ℕ) → length xs < fuel → All IsByte xs → Splits xs
Splits-below zero xs h b = absurd (omega arith)
Splits-below (suc fuel) [] h b = ([], [], refl, tt, tt)
Splits-below (suc fuel) (x ∷ []) h b = ([], x ∷ [], refl, tt, tt)
Splits-below (suc fuel) (hi ∷ lo ∷ xs) h b = elim (Bool-cases (ltb (length xs) (hi * 256 + lo))) [
  | inl short ↦ ([], hi ∷ lo ∷ xs, refl, tt, ltb→lt _ _ short)
  | inr whole ↦
      let n : ℕ = hi * 256 + lo in
      let (e, fits) = encode-announced hi lo xs b.0 b.1.0 (ltb→le _ _ whole) in
      let (bodies, rest, e', all, p) =
        Splits-below fuel (drop n xs) (omega (arith, length-drop n xs)) (All-drop n xs b.1.1) in
      (take n xs ∷ bodies, rest, rebuilt bodies rest e e', (fits, all), p)
]
  where
    rebuilt :
        (bodies : List (List ℕ)) (rest : List ℕ)
        → encode (take (hi * 256 + lo) xs) ≡ hi ∷ lo ∷ take (hi * 256 + lo) xs
        → drop (hi * 256 + lo) xs ≡ encode_all bodies ++ rest
        → hi ∷ lo ∷ xs ≡ encode_all (take (hi * 256 + lo) xs ∷ bodies) ++ rest
    rebuilt bodies rest e e' =
        ap (λ zs. hi ∷ lo ∷ zs) (sym (take-append-drop (hi * 256 + lo) xs))
        ∙ ap₂ ◌++◌ (sym e) e'
        ∙ sym (append_assoc (encode (take (hi * 256 + lo) xs)) (encode_all bodies) rest)

-- Every sequence of bytes is a sequence of whole packets, each of which fits its length field,
-- followed by an unfinished one.
pub splits : (xs : List ℕ) → All IsByte xs → Splits xs
splits xs b = Splits-below (suc (length xs)) xs (omega arith) b

encode-not-IsPartial : (body more : List ℕ) → Fits body → ¬ IsPartial (encode body ++ more)
encode-not-IsPartial body more h p = omega (arith, length-append body more)

-- Two lists with equal beginnings of one length are equal behind them, too.
append-cancel :
    (xs xs' ys ys' : List ℕ)
    → length xs ≡ length xs'
    → xs ++ ys ≡ xs' ++ ys'
    → (xs ≡ xs') × (ys ≡ ys')
append-cancel [] [] ys ys' l e = (refl, e)
append-cancel [] (x ∷ xs') ys ys' l e = absurd (omega arith)
append-cancel (x ∷ xs) [] ys ys' l e = absurd (omega arith)
append-cancel (x ∷ xs) (x' ∷ xs') ys ys' l e =
    let (p, q) = append-cancel xs xs' ys ys' (omega arith) (cc) in (cc, q)

cons2-injective :
    {a b a' b' : ℕ} {xs xs' : List ℕ}
    → ◌≡◌ {A = List ℕ} (a ∷ b ∷ xs) (a' ∷ b' ∷ xs')
    → (a ≡ a') × (b ≡ b') × (xs ≡ xs')
cons2-injective e = (cc, cc, cc)

encode-injective :
    (body body' more more' : List ℕ)
    → Fits body
    → Fits body'
    → encode body ++ more ≡ encode body' ++ more'
    → (body ≡ body') × (more ≡ more')
encode-injective body body' more more' h h' e =
    let (high, low, tails) = cons2-injective e in
    append-cancel body body' more more' (omega arith) tails

-- The packets and the unfinished rest are determined by the stream: two splits of the same bytes
-- into packets that fit their length fields and an unfinished one are equal.
pub splits_unique :
    (bodies bodies' : List (List ℕ)) (rest rest' : List ℕ)
    → All Fits bodies
    → All Fits bodies'
    → IsPartial rest
    → IsPartial rest'
    → encode_all bodies ++ rest ≡ encode_all bodies' ++ rest'
    → (bodies ≡ bodies') × (rest ≡ rest')
splits_unique [] [] rest rest' f f' p p' e = (refl, e)
splits_unique [] (b' ∷ bs') rest rest' f f' p p' e = absurd (
    encode-not-IsPartial b' _ f'.0
      (subst IsPartial (e ∙ append_assoc (encode b') (encode_all bs') rest') p))
splits_unique (b ∷ bs) [] rest rest' f f' p p' e = absurd (
    encode-not-IsPartial b _ f.0
      (subst IsPartial (sym e ∙ append_assoc (encode b) (encode_all bs) rest) p'))
splits_unique (b ∷ bs) (b' ∷ bs') rest rest' f f' p p' e =
    let (same, tails) = encode-injective b b' _ _ f.0 f'.0 regrouped in
    let (all, rests) = splits_unique bs bs' rest rest' f.1 f'.1 p p' tails in
    (ap₂ ◌∷◌ same all, rests)
  where
    regrouped : encode b ++ (encode_all bs ++ rest) ≡ encode b' ++ (encode_all bs' ++ rest')
    regrouped =
        sym (append_assoc (encode b) (encode_all bs) rest)
        ∙ e
        ∙ append_assoc (encode b') (encode_all bs') rest'

pub encode_all-append :
    (xs ys : List (List ℕ)) → encode_all (xs ++ ys) ≡ encode_all xs ++ encode_all ys
encode_all-append [] ys = refl
encode_all-append (x ∷ xs) ys =
    ap (λ zs. encode x ++ zs) (encode_all-append xs ys)
    ∙ sym (append_assoc (encode x) (encode_all xs) (encode_all ys))

-- A cut through a stream: the packets that end before it, the unfinished one at it, and the packets
-- that end behind it.
pub record Cut (xs ys : List ℕ) (bodies : List (List ℕ)) (rest : List ℕ) : Type 0 where
  pub first : List (List ℕ)
  pub open_part : List ℕ
  pub later : List (List ℕ)
  pub before : xs ≡ encode_all first ++ open_part
  pub behind : open_part ++ ys ≡ encode_all later ++ rest
  pub all : first ++ later ≡ bodies
  pub first_fits : All Fits first
  pub later_fits : All Fits later
  pub is_partial : IsPartial open_part
  pub open_bytes : All IsByte open_part

pub cut :
    (xs ys : List ℕ) (bodies : List (List ℕ)) (rest : List ℕ)
    → xs ++ ys ≡ encode_all bodies ++ rest
    → All IsByte (xs ++ ys)
    → All Fits bodies
    → IsPartial rest
    → Cut xs ys bodies rest
cut xs ys bodies rest e bytes fits p =
    let (bytes_xs, bytes_ys) = All-split IsByte xs ys bytes in
    let (first, part, e₁, fits₁, p₁) = splits xs bytes_xs in
    let bytes₁ : All IsByte part =
      (All-split IsByte (encode_all first) part (subst (All IsByte) e₁ bytes_xs)).1 in
    let (later, rest₂, e₂, fits₂, p₂) =
      splits (part ++ ys) (All-append IsByte part ys bytes₁ bytes_ys) in
    let (all, left) =
      splits_unique (first ++ later) bodies rest₂ rest (All-append Fits first later fits₁ fits₂)
        fits p₂ p (regrouped first later part rest₂ e₁ e₂ ∙ e) in
    record {
      first = first;
      open_part = part;
      later = later;
      before = e₁;
      behind = e₂ ∙ ap (λ zs. encode_all later ++ zs) left;
      all = all;
      first_fits = fits₁;
      later_fits = fits₂;
      is_partial = p₁;
      open_bytes = bytes₁;
    }
  where
    regrouped :
        (first later : List (List ℕ)) (part rest₂ : List ℕ)
        → xs ≡ encode_all first ++ part
        → part ++ ys ≡ encode_all later ++ rest₂
        → encode_all (first ++ later) ++ rest₂ ≡ xs ++ ys
    regrouped first later part rest₂ e₁ e₂ =
        ap (λ zs. zs ++ rest₂) (encode_all-append first later)
        ∙ append_assoc (encode_all first) (encode_all later) rest₂
        ∙ ap (λ zs. encode_all first ++ zs) (sym e₂)
        ∙ sym (append_assoc (encode_all first) part ys)
        ∙ ap (λ zs. zs ++ ys) (sym e₁)
