-- ===== src/Server/Dispatcher/Handshake.antt =====
-- What a client can do without a handshake.
use ride_hailing_system.Prelude.{
  ℕ, true, ◌∙◌, arith, ◌≡◌, refl, false, ltb, ◌==◌, Bool-cases, inl, inr, List, [], ◌∷◌, length,
  All, done,
}
use ride_hailing_system.Server.Double.{Double}
use ride_hailing_system.Server.Ride.{Reply}
use ride_hailing_system.Common.Protocol.{
  receive_into, overwrite, msg_type_handshake, msg_type_ride_req, op_driver_join,
}
use ride_hailing_system.Common.Protocol.Bytes.{length-overwrite, receive_into_done}
use ride_hailing_system.Server.Dispatcher.{Arrival, Connection, handle_client}

-- Neither a handshake nor a driver that joins.
abbrev pub IsForeign : Arrival → Type 0
IsForeign a =
    ((a.header.type == msg_type_handshake) ≡ false) × ((a.header.opcode == op_driver_join) ≡ false)

-- A whole body of a length that passes the guard fits the buffer.
pub whole_body :
    (n : ℕ) (bytes buffer : List ℕ)
    → ltb 1024 n ≡ false
    → (length bytes == n) ≡ true
    → length buffer ≡ 1024
    → receive_into bytes buffer ≡ done (overwrite bytes buffer)
whole_body n bytes buffer short whole size = receive_into_done bytes buffer (ground arith)

module _ {W : Type 0} where
  -- The connection has sent nothing more, and the shared state is the same.
  abbrev pub IsUntouched : Connection W → Connection W → Type 0
  IsUntouched c c' = (c'.state ≡ c.state) × (c'.sent ≡ c.sent)

module _ {W : Type 0} ⦃d : Double W⦄ (text : Reply W → List ℕ) where
  -- On a connection with no session key and a buffer of 1024 bytes, whatever packets arrive, as long
  -- as none is of the handshake type and none has the opcode of a driver that joins: the connection
  -- ends without a crash, nothing is sent, and the shared state is as before.
  pub handle_client-IsUntouched :
      (arrivals : List Arrival) (c : Connection W)
      → All IsForeign arrivals
      → c.is_key_established ≡ false
      → length c.body ≡ 1024
      → (c' : Connection W) × (handle_client text arrivals c ≡ done c') × IsUntouched c c'
  unfolding handle_client
  handle_client-IsUntouched [] c all no_key size = (c, refl, (refl, refl))
  handle_client-IsUntouched (a ∷ arrivals) c all no_key size =
      let filled = record c { body = overwrite a.bytes c.body } in
      let rest_c = handle_client-IsUntouched arrivals c all.1 no_key size in
      let rest_filled =
        handle_client-IsUntouched arrivals filled all.1 no_key
          (length-overwrite a.bytes c.body ∙ size) in
      let (strange, other_op) = all.0 in
      elim (Bool-cases (ltb 1024 a.header.body_length)) [
        | inl long ↦ (c, rw long, (refl, refl))
        | inr short ↦ elim (Bool-cases (a.header.body_length == 0)) [
          | inl empty ↦ elim (Bool-cases (a.header.type == msg_type_ride_req)) [
            | inl ride ↦ (c, rw (short, empty, strange, ride, no_key), (refl, refl))
            | inr other ↦ rw (short, empty, strange, other, other_op) rest_c
          ]
          | inr full ↦ elim (Bool-cases (length a.bytes == a.header.body_length)) [
            | inr cut ↦ (c, rw (short, full, cut), (refl, refl))
            | inl whole ↦
                let read = whole_body a.header.body_length a.bytes c.body short whole size in
                elim (Bool-cases (a.header.type == msg_type_ride_req)) [
                  | inl ride ↦
                      (filled, rw (short, full, whole, read, strange, ride, no_key), (refl, refl))
                  | inr other ↦ rw (short, full, whole, read, strange, other, other_op) rest_filled
                ]
          ]
        ]
      ]
