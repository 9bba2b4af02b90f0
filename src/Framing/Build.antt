-- ===== src/Framing/Build.antt =====
-- What `Session::Send` writes to the TLS layer: one packet in the stream's format, as long as its
-- body is shorter than 2 ^ 16 bytes; a longer one announces its length modulo 2 ^ 16.
use yuwibo_server.Prelude.{
  ℕ, suc, ◌≤◌, ◌+◌, ◌%◌, ◌^◌, ◌<◌, ◌≡◌, refl, sym, ap, subst, ◌∙◌, List, ◌++◌, arith, length,
  length-replicate, ok, u16_mod,
}
use yuwibo_server.Buffer.{Buffer, new, contents}
use yuwibo_server.Buffer.Laws.{IsValid, write-Stores}
use yuwibo_server.Buffer.Consuming.{Holds}
use yuwibo_server.Framing.{htons_bytes, ntohs_bytes, build_packet}
use yuwibo_server.Framing.Stream.{encode}

pub new-IsValid : (size : ℕ) → size < 2 ^ 62 → IsValid (new size)
unfolding new
new-IsValid size h = record {
  ordered = omega arith;
  inside = omega arith;
  small = omega (arith, length-replicate {A = ℕ} size 0);
  free = refl;
}

-- For any message, the bytes are the length field, the identifier and the message; nothing faults.
pub build_packet-Holds :
    (message_id : ℕ) (serialized : List ℕ)
    → length serialized < 2 ^ 61
    → Holds
        (htons_bytes ((2 + length serialized) % u16_mod) ++ (htons_bytes message_id ++ serialized))
        (build_packet message_id serialized)
unfolding build_packet new
build_packet-Holds message_id serialized h =
    let size : ℕ = 2 + 2 + length serialized in
    let header : List ℕ = htons_bytes ((2 + length serialized) % u16_mod) in
    let (b₁, e₁, v₁, c₁, r₁, _, w₁) =
      write-Stores {b = new size} header (new-IsValid size (omega arith)) (omega arith) in
    let (b₂, e₂, v₂, c₂, r₂, _, w₂) =
      write-Stores {b = b₁} (htons_bytes message_id) v₁ (omega arith) in
    let (b₃, e₃, v₃, c₃, r₃, _, w₃) = write-Stores {b = b₂} serialized v₂ (omega arith) in
    (b₃, rw (e₁, e₂) e₃, v₃, c₃ ∙ rw (c₂, c₁) refl, r₃ ∙ r₂ ∙ r₁)

-- A message of fewer than 2 ^ 16 - 2 bytes is sent without a fault as one packet of the stream's
-- format, whose body is its identifier and its bytes.
pub build_packet-encode :
    (message_id : ℕ) (serialized : List ℕ)
    → 2 + length serialized < u16_mod
    → Holds (encode (htons_bytes message_id ++ serialized)) (build_packet message_id serialized)
build_packet-encode message_id serialized h =
    let (b, e, v, c, r) = build_packet-Holds message_id serialized (omega arith) in
    (b, e, v, c ∙ ap (λ n. htons_bytes n ++ (htons_bytes message_id ++ serialized)) fits, r)
  where
    fits : (2 + length serialized) % u16_mod ≡ suc (suc (length serialized))
    fits = omega arith

-- A message of at least 2 ^ 16 - 2 bytes (and fewer than 2 ^ 61) is sent with a length field that
-- announces fewer bytes than its body has.
pub build_packet-too_long :
    (message_id : ℕ) (serialized : List ℕ)
    → u16_mod ≤ 2 + length serialized
    → length serialized < 2 ^ 61
    → (b : Buffer) × (build_packet message_id serialized ≡ ok b)
      × (ntohs_bytes (contents b) + 2 < length (contents b))
build_packet-too_long message_id serialized long h =
    let (b, e, v, c, r) = build_packet-Holds message_id serialized h in
    (b, e, subst (λ xs. ntohs_bytes xs + 2 < length xs) (sym c) (omega arith))
