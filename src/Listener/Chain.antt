-- ===== src/Listener/Chain.antt =====
-- What `Listener::StartAccept` leaves behind when io_uring runs out of entries.
use yuwibo_server.Prelude.{ℕ, ◌≡◌, refl, Bool, true, false, not, ◌&&◌, ◌||◌, List, [], ◌∷◌}
use yuwibo_server.Listener.{Sqe, Prepared, nothing_prepared, start_accept}

abbrev pub any_borrows : List Sqe → Bool
any_borrows [] = false
any_borrows (sqe ∷ sqes) = sqe.borrows || any_borrows sqes

-- A prepared request points into the chain's context, which is freed.
abbrev pub dangles : Prepared → Bool
dangles p = p.context_freed && any_borrows p.sqes

-- StartAccept leaves a prepared request that points into the freed context of the chain exactly
-- when the entries for the socket and the option were there and the one for the bind or the listen
-- was missing.
pub start_accept-dangles :
    (socket option bind listen accept : Bool) (port : ℕ)
    → dangles (start_accept socket option bind listen accept port nothing_prepared).1
      ≡ (socket && (option && not (bind && listen)))
unfolding start_accept
start_accept-dangles false b c d e port = refl
start_accept-dangles true false c d e port = refl
start_accept-dangles true true false d e port = refl
start_accept-dangles true true true false e port = refl
start_accept-dangles true true true true false port = refl
start_accept-dangles true true true true true port = refl
