-- ===== src/Session/Draining/Acks.antt =====
-- The texts of a send queue, and what completed sends take off them.
use yuwibo_server.Prelude.{
  ℕ, ◌≤◌, ◌≡◌, ◌≢◌, refl, sym, ap, ◌∙◌, List, [], ◌∷◌, ◌++◌, arith, length, take, drop, All,
  append_assoc, ◌==◌, ==_iff, concat, drop-append_ge, take_all, take-append-drop, if◌then◌else◌,
  Bool-cases, inl, inr, map,
}
use yuwibo_server.Buffer.{Buffer, contents}
use yuwibo_server.Session.{Request, send_data, submitted}

-- The texts that wait, after the first `n` bytes of the first one were sent.
abbrev pub after_ack : ℕ → List (List ℕ) → List (List ℕ)
after_ack n [] = []
after_ack n (x ∷ xs) = if n == length x then xs else drop n x ∷ xs

-- Each completion is of one byte at least, and of no more than were asked to be sent.
abbrev pub AcksFit : List ℕ → List (List ℕ) → Type 0
AcksFit [] xs = Unit {0}
AcksFit (n ∷ ns) xs =
    (1 ≤ n)
    × (x : List ℕ) × (rest : List (List ℕ)) × (xs ≡ x ∷ rest)
    × (n ≤ length x)
    × AcksFit ns (after_ack n xs)

-- What is asked for when these texts wait.
abbrev pub next_send : ℕ → List (List ℕ) → List Request
next_send fd [] = []
next_send fd (x ∷ xs) = send_data fd x ∷ submitted ∷ []

-- The bytes that these completions say were sent: of each text that is due, the first ones.
abbrev pub sent : List ℕ → List (List ℕ) → List ℕ
sent [] xs = []
sent (n ∷ ns) [] = []
sent (n ∷ ns) (x ∷ xs) = take n x ++ sent ns (after_ack n (x ∷ xs))

-- The sends asked for at these completions.
abbrev pub due_sends : ℕ → List ℕ → List (List ℕ) → List Request
due_sends fd [] xs = []
due_sends fd (n ∷ ns) xs = next_send fd (after_ack n xs) ++ due_sends fd ns (after_ack n xs)

abbrev pub HasBytes : Buffer → Type 0
HasBytes b = contents b ≢ []

abbrev pub texts : List Buffer → List (List ℕ)
texts bs = map contents bs

pub no_texts : (bs : List Buffer) → All HasBytes bs → concat (texts bs) ≡ [] → bs ≡ []
no_texts [] some_left e = refl
no_texts (b ∷ bs) some_left e = absurd (some_left.0 (left_nil (contents b) (concat (texts bs)) e))
  where
    left_nil : (xs ys : List ℕ) → xs ++ ys ≡ [] → xs ≡ []
    left_nil [] ys e = refl
    left_nil (x ∷ xs) ys e = cc

pub first_of :
    (bs : List Buffer) (x : List ℕ) (more : List (List ℕ))
    → texts bs ≡ x ∷ more
    → (front : Buffer) × (rest : List Buffer) × (bs ≡ front ∷ rest) × (contents front ≡ x)
first_of [] x more e = cc
first_of (b ∷ bs) x more e = (b, bs, refl, ap head_or e)
  where
    head_or : List (List ℕ) → List ℕ
    head_or [] = []
    head_or (y ∷ ys) = y

-- One completion takes the first bytes off.
after_ack-concat :
    (n : ℕ) (x : List ℕ) (xs : List (List ℕ))
    → n ≤ length x
    → take n x ++ concat (after_ack n (x ∷ xs)) ≡ concat (x ∷ xs)
after_ack-concat n x xs h = elim (Bool-cases (n == length x)) [
  | inl whole ↦
      rw whole
        (ap (λ ys. ys ++ concat xs) (take_all n x (omega (arith, (==_iff n (length x)).0 whole))))
  | inr part ↦ rw part (
      sym (append_assoc (take n x) (drop n x) (concat xs))
      ∙ ap (λ ys. ys ++ concat xs) (take-append-drop n x))
]

pub one_more :
    (n : ℕ) (ns : List ℕ) (x : List ℕ) (more later : List (List ℕ)) {before now : List (List ℕ)}
    → before ≡ x ∷ more
    → n ≤ length x
    → now ≡ after_ack n before
    → sent ns now ++ concat later ≡ concat now
    → sent (n ∷ ns) before ++ concat later ≡ concat before
one_more n ns x more later {before} {now} e h step split =
    let left : now ≡ after_ack n (x ∷ more) = step ∙ ap (after_ack n) e in
    ap (λ q. sent (n ∷ ns) q ++ concat later) e
    ∙ append_assoc (take n x) (sent ns (after_ack n (x ∷ more))) (concat later)
    ∙ ap (λ ys. take n x ++ ys)
        (ap (λ q. sent ns q ++ concat later) (sym left) ∙ split ∙ ap concat left)
    ∙ after_ack-concat n x more h
    ∙ ap concat (sym e)

same_rest : (xs : List ℕ) {ys zs : List ℕ} → xs ++ ys ≡ xs ++ zs → ys ≡ zs
same_rest xs {ys} {zs} e =
    sym (drop-append_ge (length xs) 0 xs ys (omega arith))
    ∙ ap (drop (length xs)) e
    ∙ drop-append_ge (length xs) 0 xs zs (omega arith)

pub all_later :
    (n : ℕ) (ns : List ℕ) (x : List ℕ) (more : List (List ℕ)) {before now : List (List ℕ)}
    → before ≡ x ∷ more
    → n ≤ length x
    → now ≡ after_ack n before
    → sent (n ∷ ns) before ≡ concat before
    → sent ns now ≡ concat now
all_later n ns x more {before} {now} e h step all =
    let left : now ≡ after_ack n (x ∷ more) = step ∙ ap (after_ack n) e in
    ap (sent ns) left
    ∙ same_rest (take n x)
        (ap (sent (n ∷ ns)) (sym e) ∙ all ∙ ap concat e ∙ sym (after_ack-concat n x more h))
    ∙ ap concat (sym left)
