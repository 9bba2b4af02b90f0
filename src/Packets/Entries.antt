-- ===== src/Packets/Entries.antt =====
-- The entries of the handler table, by the type of the message.
use yuwibo_server.Prelude.{
  ℕ, zero, suc, ◌+◌, ◌<◌, ◌≡◌, refl, ap, subst, ◌∙◌, List, [], ◌∷◌, some, arith, length, get_elem?,
  All,
}
use yuwibo_server.Messages.{
  Message, ping, pong, signin_request, signin_response, signup_request, signup_response,
  register_request, register_response, create_room_request, find_room_request, find_room_response,
  join_room_request, join_room_response, leave_room_request, update_room_info, broadcast_request,
  broadcast_response, game_request, game_response,
}
use yuwibo_server.Database.{Driver}
use yuwibo_server.Rooms.{Iteration}
use yuwibo_server.Packets.Handlers.{
  Handler, registrations, on_ping, on_nothing, on_signin_request, on_signup_request,
  on_register_request, on_create_room_request, on_find_room_request, on_join_room_request,
  on_leave_room_request, on_broadcast_request, on_game_request,
}
use yuwibo_server.Packets.Registry.{wire_id}

module _ {H : Type 0} where
  abbrev pub Numbered : ℕ → List (ℕ × Message × H) → Type 0
  Numbered n [] = Unit {0}
  Numbered n ((id, creator, h) ∷ rest) = (id ≡ n) × (wire_id creator ≡ n) × Numbered (n + 1) rest

  -- The entry at a position of a numbered list.
  entry_lem :
      (P : ℕ × Message × H → Type 0) (n i : ℕ) (rs : List (ℕ × Message × H))
      → Numbered n rs
      → All P rs
      → i < length rs
      → (creator : Message) × (h : H) × (get_elem? rs i ≡ some (n + i, creator, h))
        × (wire_id creator ≡ n + i)
        × P (n + i, creator, h)
  entry_lem P n i [] numbers all h = absurd (omega arith)
  entry_lem P n zero ((id, creator, handler) ∷ rest) numbers all h =
      let here : id ≡ n + 0 = numbers.0 ∙ omega arith in
      (
        creator,
        handler,
        ap (λ k. some (k, creator, handler)) here,
        omega (arith, numbers.1),
        subst (λ k. P (k, creator, handler)) here all.0,
      )
  entry_lem P n (suc i) ((id, creator, handler) ∷ rest) numbers all h =
      let (c, k, e, w, p) = entry_lem P (n + 1) i rest numbers.2 all.1 (omega arith) in
      let there : n + 1 + i ≡ n + suc i = omega arith in
      (c, k, e ∙ ap (λ j. some (j, c, k)) there, w ∙ there, subst (λ j. P (j, c, k)) there p)

  pub first_entry_lem :
      (P : ℕ × Message × H → Type 0) (i : ℕ) (rs : List (ℕ × Message × H))
      → Numbered 0 rs
      → All P rs
      → i < length rs
      → (creator : Message) × (h : H) × (get_elem? rs i ≡ some (i, creator, h))
        × (wire_id creator ≡ i)
        × P (i, creator, h)
  first_entry_lem P i rs numbers all h =
      let whole : 0 + i ≡ i = omega arith in
      subst
        (λ k.
          (creator : Message) × (h : H) × (get_elem? rs i ≡ some (k, creator, h))
          × (wire_id creator ≡ k)
          × P (k, creator, h))
        whole (entry_lem P 0 i rs numbers all h)

module _ (d : Driver) (it : Iteration) where
  -- The handler that was registered for a message's type.
  unfoldable pub handler_for : Message → Handler d it
  handler_for ping = on_ping d it
  handler_for (signin_request u p) = on_signin_request d it
  handler_for (signup_request u p) = on_signup_request d it
  handler_for (register_request n) = on_register_request d it
  handler_for (create_room_request n m) = on_create_room_request d it
  handler_for (find_room_request n) = on_find_room_request d it
  handler_for (join_room_request i) = on_join_room_request d it
  handler_for (leave_room_request n) = on_leave_room_request d it
  handler_for (broadcast_request m) = on_broadcast_request d it
  handler_for (game_request u) = on_game_request d it
  handler_for m = on_nothing d it

  abbrev pub Registered : Message → Type 0
  Registered m =
      (creator : Message) × (get_elem? (registrations d it) (wire_id m)
        ≡ some (wire_id m, creator, handler_for m))

  pub handler_for_lem : (m : Message) → Registered m
  unfolding registrations handler_for
  handler_for_lem ping = (_, refl)
  handler_for_lem (pong t) = (_, refl)
  handler_for_lem (signin_request u p) = (_, refl)
  handler_for_lem (signin_response s e) = (_, refl)
  handler_for_lem (signup_request u p) = (_, refl)
  handler_for_lem (signup_response s e) = (_, refl)
  handler_for_lem (register_request n) = (_, refl)
  handler_for_lem register_response = (_, refl)
  handler_for_lem (create_room_request n m) = (_, refl)
  handler_for_lem (find_room_request n) = (_, refl)
  handler_for_lem (find_room_response rs) = (_, refl)
  handler_for_lem (join_room_request i) = (_, refl)
  handler_for_lem (join_room_response r) = (_, refl)
  handler_for_lem (leave_room_request n) = (_, refl)
  handler_for_lem (update_room_info u) = (_, refl)
  handler_for_lem (broadcast_request m) = (_, refl)
  handler_for_lem (broadcast_response u m) = (_, refl)
  handler_for_lem (game_request u) = (_, refl)
  handler_for_lem (game_response u) = (_, refl)

  pub registrations-Numbered : Numbered 0 (registrations d it)
  unfolding registrations
  registrations-Numbered = (
    refl,
    refl,
    (
      refl,
      refl,
      (
        refl,
        refl,
        (
          refl,
          refl,
          (
            refl,
            refl,
            (
              refl,
              refl,
              (
                refl,
                refl,
                (
                  refl,
                  refl,
                  (
                    refl,
                    refl,
                    (
                      refl,
                      refl,
                      (
                        refl,
                        refl,
                        (
                          refl,
                          refl,
                          (
                            refl,
                            refl,
                            (
                              refl,
                              refl,
                              (
                                refl,
                                refl,
                                (refl, refl, (refl, refl, (refl, refl, (refl, refl, tt)))),
                              ),
                            ),
                          ),
                        ),
                      ),
                    ),
                  ),
                ),
              ),
            ),
          ),
        ),
      ),
    ),
  )

  pub registrations-length : length (registrations d it) ≡ 19
  unfolding registrations
  registrations-length = refl
