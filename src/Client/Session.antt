-- ===== src/Client/Session.antt =====
-- A client of src/client/client_core.c and the dispatcher of src/server/dispatcher.c together.
pub mod Run
pub mod Blocked
pub mod Text
use ride_hailing_system.Prelude.{
  ℕ, ◌+◌, ◌%◌, ◌^◌, ◌<◌, ◌≤◌, ◌≡◌, refl, sym, ◌∙◌, ap, arith, Bool, true, false, some, List, [],
  ◌∷◌, ◌++◌, length, take, All, Exec, done, ◌>>=◌, ℤ, pos, ltb,
}
use native.Mathlib.Nat.{mod-eq_of_lt}
use ride_hailing_system.Common.Checksum.{calculate_checksum}
use ride_hailing_system.Common.Rc4.{rc4_crypt}
use ride_hailing_system.Common.Rc4.RoundTrip.{IsCipher, rc4_crypt-IsCipher}
use ride_hailing_system.Common.Dh.{derive_session_key}
use ride_hailing_system.Common.Dh.Exchange.{Exchange, exchange}
use ride_hailing_system.Common.Dh.SessionKey.{derive_session_key-IsKey}
use ride_hailing_system.Common.Protocol.{
  Packet, op_response, to_signed, store_i64, overwrite, load, RideRequestData, request_bytes,
}
use ride_hailing_system.Common.Protocol.Bytes.{
  overwrite_split, length-overwrite, length-store_i64, take-append, overwrite-append,
}
use ride_hailing_system.Common.Protocol.Layout.{
  IsRequest, length-request_bytes, request_bytes-IsByte, load-request_bytes,
}
use ride_hailing_system.Server.Double.{Double, IsOrdered, HasExactFares}
use ride_hailing_system.Server.State.{SharedState, IsSized}
use ride_hailing_system.Server.RateLimit.{check_and_update_rate_limit}
use ride_hailing_system.Server.Ride.{Reply, result_of, handle_ride_request_logic}
use ride_hailing_system.Server.Ride.Assign.{Outcome, handle_ride_request_logic-Outcome}
use ride_hailing_system.Server.Dispatcher.{
  Arrival, Connection, new_connection, ack_packet, response_packet, handle_client,
}
use ride_hailing_system.Server.Dispatcher.Turns.{
  received, handle_client-handshake, handle_client-ride,
}
use ride_hailing_system.Server.Dispatcher.Honest.{
  with_key, shake_hands-Exchange, decrypt_lem, serve_ride_lem,
}
use ride_hailing_system.Client.Core.{
  Answer, Link, ClientRun, hello_packet, request_data, request_packet, judge, request_ride,
  perform_ride_request, to_u32,
}
use ride_hailing_system.Client.Core.Honest.{perform_dh_handshake-Exchange, read_response_lem}

-- The texts of the replies: strings of characters that fit the buffers, by which the client can
-- tell the outcomes apart.
pub record IsText {W : Type 0} (text : Reply W → List ℕ) : Type 0 where
  pub some_text : (reply : Reply W) → 0 < length (text reply)
  pub short : (reply : Reply W) → length (text reply) < 256
  pub chars : (reply : Reply W) → All (λ b. 0 < b) (text reply)
  pub bytes : (reply : Reply W) → All (λ b. b < 256) (text reply)
  pub verdict : (reply : Reply W) → judge (text reply) ≡ result_of reply

-- What else the two ends find at run time: the time, the values of `rand()`, and old memory.
pub record Chances : Type 0 where
  pub client_rand : ℕ
  pub server_rand : ℕ
  pub now : ℕ
  pub rand1 : ℕ
  pub rand2 : ℕ
  pub resp_body : List ℕ
  pub msg_buffer : List ℕ
  pub server_body : List ℕ

pub record HasBuffers (q : Chances) : Type 0 where
  pub resp_size : length q.resp_body ≡ 8
  pub msg_size : length q.msg_buffer ≡ 1024
  pub body_size : length q.server_body ≡ 1024

-- A packet as it arrives at the server, and at the client.
abbrev pub arrives : Chances → Packet → Arrival
arrives q p = record {
  header = p.header;
  bytes = p.body;
  now = q.now;
  key_rand = q.server_rand;
  rand1 = q.rand1;
  rand2 = q.rand2;
}

abbrev pub link_of : Packet → Packet → Link
link_of ack response = record {
  hello_sent = true;
  ack = some (record { header = ack.header; bytes = ack.body });
  request_sent = true;
  response = some (record { header = response.header; bytes = response.body });
}

-- A connection that has just been accepted.
abbrev pub accepted : {W : Type 0} → Chances → SharedState W → Connection W
accepted q s = new_connection q.server_body s

module _ {W : Type 0} ⦃d : Double W⦄ where
  -- A whole exchange: the client has sent `hello` and `request`, the server `ack` and `response`;
  -- the request was served as `r` on the state `s1` that the limiter left, and the client has the
  -- text of the reply in its buffer and its outcome as the result.
  pub record Session (text : Reply W → List ℕ) (client : ℤ) (lat lon : List ℕ) (q : Chances)
      (s s1 : SharedState W) : Type 0 where
    pub hello : Packet
    pub ack : Packet
    pub request : Packet
    pub response : Packet
    pub r : SharedState W × Reply W
    pub rest : List ℕ
    pub server : Connection W
    pub served : handle_ride_request_logic client q.rand1 q.rand2 s1 ≡ done r
    pub outcome : Outcome client s1 r
    pub client_run :
        perform_ride_request client lat lon q.client_rand q.resp_body
          (link_of ack response)
          q.msg_buffer
        ≡ done (record {
          result = result_of r.1;
          msg_buffer = text r.1 ++ (0 ∷ rest);
          sent = hello ∷ (request ∷ []);
        })
    pub server_run :
        handle_client text (arrives q hello ∷ (arrives q request ∷ [])) (accepted q s) ≡ done server
    pub state_after : server.state ≡ r.0
    pub server_sent : server.sent ≡ ack ∷ (response ∷ [])
