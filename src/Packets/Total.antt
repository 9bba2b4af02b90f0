-- ===== src/Packets/Total.antt =====
-- Whatever a client sends, `Session::HandlePacket` returns and keeps the rooms consistent.
use yuwibo_server.Prelude.{
  Bool, ◌==◌, ◌||◌, ℕ, ◌-◌, ◌<◌, ◌≡◌, refl, sym, ap, subst, ◌∙◌, true, ok-injective, some-injective,
  List, Option, none, some, Bool-cases, inl, inr, leb, leb→le, leb→lt, length, get_elem?, drop,
  take, ok, ◌>>=◌, sub_size, to_int, u32_mod,
}
use yuwibo_server.Buffer.Laws.{read_at-slice}
use yuwibo_server.Framing.{ntohs_bytes}
use yuwibo_server.Framing.Process.{HasId}
use yuwibo_server.Messages.{
  Message, ping, pong, signin_request, signin_response, signup_request, signup_response,
  register_request, register_response, create_room_request, find_room_request, find_room_response,
  join_room_request, join_room_response, leave_room_request, update_room_info, broadcast_request,
  broadcast_response, game_request, game_response,
}
use yuwibo_server.Database.{Driver}
use yuwibo_server.Rooms.{World, Iteration}
use yuwibo_server.Rooms.Lobby.{IsConsistent, Settles}
use yuwibo_server.Packets.{PacketHandler, create_message_by_id}
use yuwibo_server.Packets.Handlers.{Handler, registrations}
use yuwibo_server.Packets.Dispatch.{Parser, init, call_handler, handle_packet}
use yuwibo_server.Packets.Registry.{wire_id, IsRegistered, init_lem, init-IsUnknown}
use yuwibo_server.Packets.Rows.{HasRows}
use yuwibo_server.Packets.Safety.{
  Ready, IsSafe, on_ping-IsSafe, on_nothing-IsSafe, on_signin_request-IsSafe,
  on_signup_request-IsSafe, on_register_request-IsSafe, on_create_room_request-IsSafe,
  on_find_room_request-IsSafe, on_join_room_request-IsSafe, on_leave_room_request-IsSafe,
  on_broadcast_request-IsSafe, on_game_request-IsSafe,
}
use yuwibo_server.Packets.Entries.{
  first_entry_lem, handler_for, handler_for_lem, registrations-Numbered, registrations-length,
}

-- A parsed message has the type of the message that it was called on.
abbrev pub KeepsType : Parser → Type 0
KeepsType parse =
    (m m' : Message) (memory : List ℕ) (n : ℕ) → parse m memory n ≡ some m' → wire_id m' ≡ wire_id m

module _ (d : Driver) (it : Iteration) where
  -- What is known of an identifier below 19.
  unfoldable pub Known : PacketHandler (Handler d it) → ℕ → Type 0
  Known p id =
      (creator : Message) × (h : Handler d it) × (get_elem? (registrations d it) id
        ≡ some (id, creator, h))
      × (wire_id creator ≡ id)
      × IsRegistered d it p (id, creator, h)

  pub registered_same :
      (id : ℕ) (creator : Message) (h : Handler d it) (m : Message)
      → get_elem? (registrations d it) id ≡ some (id, creator, h)
      → wire_id m ≡ id
      → h ≡ handler_for d it m
  registered_same id creator h m e same =
      let (c, e') = handler_for_lem d it m in
      third (sym e ∙ sym (ap (get_elem? (registrations d it)) same) ∙ e')
    where
      third :
          {x y : ℕ × Message × Handler d it}
          → ◌≡◌ {A = Option (ℕ × Message × Handler d it)} (some x) (some y)
          → x.2 ≡ y.2
      third {x} {y} q = ap {A = ℕ × Message × Handler d it} (λ z. z.2) (some-injective q)

  pub init-Known :
      (p : PacketHandler (Handler d it)) (id : ℕ) → init d it ≡ ok p → id < 19 → Known p id
  unfolding Known
  init-Known p id e h =
      let (q, made, all, ids) = init_lem d it in
      let same : q ≡ p = ok-injective (sym made ∙ e) in
      let (creator, handler, at, own, known) =
        first_entry_lem (IsRegistered d it q) id (registrations d it) (registrations-Numbered d it)
          all (rw (registrations-length d it) h) in
      (
        creator,
        handler,
        at,
        own,
        subst (λ r. IsRegistered d it r (id, creator, handler)) same known,
      )

-- The identifiers of the packets whose handlers ask for the users' names: to create, join and leave a
-- room, and to speak in it.
abbrev pub asks_names : ℕ → Bool
asks_names id = id == 8 || (id == 11 || (id == 13 || id == 15))

module _ (d : Driver) (it : Iteration) (rows : HasRows d) where
  handler_for-IsSafe :
      (m : Message) (s : ℕ) → IsSafe d it rows (asks_names (wire_id m)) (handler_for d it m s m) s
  unfolding handler_for
  handler_for-IsSafe ping s = on_ping-IsSafe d it rows s ping
  handler_for-IsSafe (pong t) s = on_nothing-IsSafe d it rows s (pong t)
  handler_for-IsSafe (signin_request u p) s = on_signin_request-IsSafe d it rows s u p
  handler_for-IsSafe (signin_response a e) s = on_nothing-IsSafe d it rows s (signin_response a e)
  handler_for-IsSafe (signup_request u p) s = on_signup_request-IsSafe d it rows s u p
  handler_for-IsSafe (signup_response a e) s = on_nothing-IsSafe d it rows s (signup_response a e)
  handler_for-IsSafe (register_request n) s = on_register_request-IsSafe d it rows s n
  handler_for-IsSafe register_response s = on_nothing-IsSafe d it rows s register_response
  handler_for-IsSafe (create_room_request n m) s = on_create_room_request-IsSafe d it rows s n m
  handler_for-IsSafe (find_room_request n) s = on_find_room_request-IsSafe d it rows s n
  handler_for-IsSafe (find_room_response rs) s =
      on_nothing-IsSafe d it rows s (find_room_response rs)
  handler_for-IsSafe (join_room_request i) s = on_join_room_request-IsSafe d it rows s i
  handler_for-IsSafe (join_room_response r) s = on_nothing-IsSafe d it rows s (join_room_response r)
  handler_for-IsSafe (leave_room_request n) s = on_leave_room_request-IsSafe d it rows s n
  handler_for-IsSafe (update_room_info u) s = on_nothing-IsSafe d it rows s (update_room_info u)
  handler_for-IsSafe (broadcast_request m) s = on_broadcast_request-IsSafe d it rows s m
  handler_for-IsSafe (broadcast_response u m) s =
      on_nothing-IsSafe d it rows s (broadcast_response u m)
  handler_for-IsSafe (game_request u) s = on_game_request-IsSafe d it rows s u
  handler_for-IsSafe (game_response u) s = on_nothing-IsSafe d it rows s (game_response u)

  call_handler-Settles :
      (p : PacketHandler (Handler d it)) (session id : ℕ) (m : Message) (w : World d.State)
      → Known d it p id
      → wire_id m ≡ id
      → IsConsistent w
      → w.alive session ≡ true
      → length w.rooms < u32_mod - 1
      → (asks_names id ≡ true → Ready d it rows session w)
      → Settles w (call_handler d it p session id m w)
  unfolding call_handler Known
  call_handler-Settles p session id m w (creator, h, e, own, (made, handled)) same c alive small
        ready =
      rw handled (
        subst (λ k. Settles w (k session m w)) (sym (registered_same d it id creator h m e same))
          (handler_for-IsSafe m session w c alive small
            (λ asks. ready (ap asks_names (sym same) ∙ asks))))

  -- The message made for an identifier, filled by the parser, reaches a handler for its type.
  filled-Settles :
      (p : PacketHandler (Handler d it)) (session id : ℕ) (parsed : Option Message)
      (w : World d.State)
      → Known d it p id
      → ((m : Message) → parsed ≡ some m → wire_id m ≡ id)
      → IsConsistent w
      → w.alive session ≡ true
      → length w.rooms < u32_mod - 1
      → (asks_names id ≡ true → Ready d it rows session w)
      → Settles w
          (elim parsed [ none ↦ ok w | some filled ↦ call_handler d it p session id filled w ])
  filled-Settles p session id none w known same c alive small ready = (w, refl, c, refl)
  filled-Settles p session id (some m) w known same c alive small ready =
      call_handler-Settles p session id m w known (same m refl) c alive small ready

  -- If the packet asks for names, the users of the session and of those in the rooms are named.
  abbrev pub IsNamed : ℕ → List ℕ → World d.State → Type 0
  IsNamed session body w = asks_names (ntohs_bytes (take 2 body)) ≡ true → Ready d it rows session w

  -- After Init, any packet that has an identifier, from a session that is alive, is handled
  -- without a fault and leaves the rooms consistent (each under its own number, with members that
  -- are alive, stand there once and are not more than its limit) and every session alive, if the
  -- rooms were consistent and fewer than 2 ^ 32 - 1, the parser keeps the message's type, and the
  -- rows of the database's answers have their columns, with the names that the packet asks for.
  pub handle_packet-Settles :
      (parse : Parser) (p : PacketHandler (Handler d it)) (session : ℕ) (body : List ℕ)
      (w : World d.State)
      → KeepsType parse
      → init d it ≡ ok p
      → HasId body
      → IsConsistent w
      → w.alive session ≡ true
      → length w.rooms < u32_mod - 1
      → IsNamed session body w
      → Settles w (handle_packet d it parse p session body (length body) w)
  unfolding handle_packet Known
  handle_packet-Settles parse p session body w keeps e h c alive small names =
      rw (read_at-slice body 0 2 h) (by_id (ntohs_bytes (take 2 body)) names)
    where
      by_id :
          (id : ℕ)
          → (asks_names id ≡ true → Ready d it rows session w)
          → Settles w (
              create_message_by_id id p >>= λ message. elim message [
                | none ↦ ok w
                | some empty ↦
                    elim (parse empty (drop 2 body) (to_int (sub_size (length body) 2))) [
                      | none ↦ ok w
                      | some filled ↦ call_handler d it p session id filled w
                    ]
              ])
      by_id id ready = elim (Bool-cases (leb 19 id)) [
        | inl out ↦ rw (init-IsUnknown d it id p (leb→le _ _ out) e).0 (w, refl, c, refl)
        | inr inside ↦
            let known = init-Known d it p id e (leb→lt _ _ inside) in
            let (creator, handler, at, own, (made, handled)) = known in
            rw made (
              filled-Settles p session id
                (parse creator (drop 2 body) (to_int (sub_size (length body) 2))) w known
                (λ m q. keeps creator m (drop 2 body) _ q ∙ own) c alive small ready)
      ]
