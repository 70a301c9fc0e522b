-- ===== src/Client/Session/Blocked.antt =====
-- A client that the limiter blocks, at the dispatcher.
use ride_hailing_system.Prelude.{
  ℕ, ◌^◌, ◌<◌, ◌≡◌, ◌∙◌, ap, arith, true, List, [], ◌∷◌, done, crash, pos,
}
use ride_hailing_system.Common.Rc4.{rc4_crypt}
use ride_hailing_system.Common.Rc4.RoundTrip.{rc4_crypt-IsCipher}
use ride_hailing_system.Common.Dh.{derive_session_key}
use ride_hailing_system.Common.Dh.Exchange.{Exchange}
use ride_hailing_system.Common.Dh.SessionKey.{derive_session_key-IsKey}
use ride_hailing_system.Common.Protocol.{request_bytes}
use ride_hailing_system.Common.Protocol.Bytes.{to_signed_small}
use ride_hailing_system.Common.Protocol.Layout.{
  IsRequest, length-request_bytes, request_bytes-IsByte, load-request_bytes,
}
use ride_hailing_system.Server.Double.{Double}
use ride_hailing_system.Server.State.{SharedState}
use ride_hailing_system.Server.RateLimit.{check_and_update_rate_limit}
use ride_hailing_system.Server.Ride.{Reply}
use ride_hailing_system.Server.Dispatcher.{handle_client}
use ride_hailing_system.Server.Dispatcher.Honest.{serve_ride_crash}
use ride_hailing_system.Client.Core.{hello_packet, ride_packet, request_data}
use ride_hailing_system.Client.Core.Honest.{request_data-client_id}
use ride_hailing_system.Client.Session.{Chances, HasBuffers, arrives, accepted}
use ride_hailing_system.Client.Session.Run.{opened, server_greets, server_decrypts}

-- If the limiter blocks the request of a client that has done the handshake and sends an encrypted
-- request, the connection ends in a crash of the server, and not in an answer.
pub handle_client_crash :
    {W : Type 0} ⦃d : Double W⦄ (text : Reply W → List ℕ) (client : ℕ) (lat lon : List ℕ)
    (q : Chances) (x : Exchange q.client_rand q.server_rand) (s s1 : SharedState W)
    → client < 2 ^ 31
    → IsRequest (request_data (pos client) lat lon)
    → HasBuffers q
    → check_and_update_rate_limit (pos client) q.now s ≡ done (s1, true)
    → let plain = request_bytes (request_data (pos client) lat lon) in
      (cipher : List ℕ) × (rc4_crypt plain (derive_session_key x.secret 64) ≡ done cipher)
      × (handle_client text
            (arrives q (hello_packet (pos x.pub_a)) ∷ (arrives q (ride_packet plain cipher) ∷ []))
            (accepted q s)
          ≡ crash)
handle_client_crash text client lat lon q x s s1 small fits buffers blocked =
    let (ascii, some_key, _, _) = derive_session_key-IsKey x.secret x.secret_fits in
    let body = request_data (pos client) lat lon in
    let bytes = request_bytes body in
    let size = length-request_bytes body fits in
    let (cipher, c) =
      rc4_crypt-IsCipher bytes (derive_session_key x.secret 64) (request_bytes-IsByte body fits)
        ascii some_key in
    let id = request_data-client_id client lat lon small in
    let (old, opens) =
      server_decrypts text q x s bytes cipher buffers.body_size size (c.same_length ∙ size)
        c.back in
    (
      cipher,
      c.forth,
      server_greets text q x s (arrives q (ride_packet bytes cipher) ∷ []) buffers.body_size
          ∙ opens
          ∙ serve_ride_crash text (arrives q (ride_packet bytes cipher))
              (opened text q x s bytes cipher old) client (pos client) s1
              (load-request_bytes body old (omega (arith, id)) ∙ ap done id)
              (to_signed_small (2 ^ 31) client small) blocked,
    )
