-- ===== src/Examples/Dispatcher.antt =====
-- Examples for the two dispatchers.
use ride_hailing_system.Prelude.{
  ℕ, ◌^◌, ◌≡◌, refl, arith, false, List, [], ◌∷◌, replicate, done, ℤ, pos,
}
use ride_hailing_system.Server.Double.Fixed.{fixed, fixed-IsOrdered, fixed-HasExactFares}
use ride_hailing_system.Server.State.{SharedState, IsSized}
use ride_hailing_system.Server.Ride.{Reply}
use ride_hailing_system.Server.Ride.Assign.{Outcome}
use ride_hailing_system.Server.Dispatcher.{Arrival, Connection, handle_client}
use ride_hailing_system.Common.Protocol.{op_response, load, to_signed, overwrite}
use ride_hailing_system.Server.Dispatcher.Handshake.{IsUntouched, handle_client-IsUntouched}
use ride_hailing_system.Server.InsecureDispatcher.{
  send_response_packet_insecure, handle_client_insecure,
}
use ride_hailing_system.Server.InsecureDispatcher.Unlimited.{
  IsUncounted, handle_client_insecure-IsUncounted,
}

-- No drivers.
abbrev pub empty_state : SharedState ℤ
empty_state = record {
  drivers = replicate 256 (record {
    driver_id = 0;
    lat = pos 0;
    lon = pos 0;
    is_available = false;
    rides_count = pos 0;
    fuel = pos 0;
    is_refueling = false;
    rating = pos 0;
    has_target = false;
    target_lat = pos 0;
    target_lon = pos 0;
  });
  driver_count = pos 0;
  pending_rides = [];
  ride_count = pos 0;
  total_requests_handled = 0;
  total_success_requests = 0;
  total_revenue = pos 0;
  client_last_seen = replicate 2000 0;
  client_req_count = replicate 2000 (pos 0);
  dispatch_mode = pos 1;
}

pub empty_state-IsSized : IsSized ℤ empty_state
empty_state-IsSized = record {
  drivers_size = refl;
  last_seen_size = refl;
  req_count_size = refl;
  count_fits = omega arith;
}

-- A ride request of client 7 in four bytes.
abbrev ride_request : Arrival
ride_request = record {
  header = record { body_length = 4; type = 1; opcode = 1; checksum = 0 };
  bytes = 7 ∷ (0 ∷ (0 ∷ (0 ∷ [])));
  now = 1700;
  key_rand = 5;
  rand1 = 41;
  rand2 = 18;
}

abbrev fresh_connection : Connection ℤ
fresh_connection = record {
  state = empty_state;
  body = replicate 1024 0;
  session_key = [];
  is_key_established = false;
  sent = [];
}

-- Any text for a reply.
abbrev text : Reply ℤ → List ℕ
text _ = 79 ∷ (75 ∷ [])

handle_client-IsUntouched_example :
    (c' : Connection ℤ) × (handle_client text (ride_request ∷ []) fresh_connection ≡ done c')
    × IsUntouched fresh_connection c'
handle_client-IsUntouched_example =
    handle_client-IsUntouched text (ride_request ∷ []) fresh_connection ((refl, refl), tt) refl refl

handle_client_insecure-IsUncounted_example :
    (s' : SharedState ℤ) × (reply : Reply ℤ) × (id : ℕ) × (handle_client_insecure text 0
        ride_request
        (replicate 1024 0)
        empty_state
      ≡ done (s', send_response_packet_insecure 0 (text reply) op_response ∷ []))
    × (load 4 0 (overwrite ride_request.bytes (replicate 1024 0)) ≡ done id)
    × Outcome (to_signed (2 ^ 31) id) empty_state (s', reply)
    × IsUncounted empty_state s'
handle_client_insecure-IsUncounted_example =
    handle_client_insecure-IsUncounted fixed-IsOrdered fixed-HasExactFares text 0 ride_request
      (replicate 1024 0) empty_state empty_state-IsSized refl refl (omega arith) refl
