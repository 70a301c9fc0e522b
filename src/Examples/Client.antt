-- ===== src/Examples/Client.antt =====
-- Examples for the clients.
use ride_hailing_system.Prelude.{
  ℕ, zero, suc, get_elem?, ◌<◌, ◌≡◌, refl, arith, true, false, some, List, [], ◌∷◌, replicate, set,
  length, map, total_of, done, crash, ℤ, pos, negsuc, ◌+ℤ◌,
}
use ride_hailing_system.Prelude.Pairs.{All2}
use ride_hailing_system.Common.Protocol.{request_bytes}
use ride_hailing_system.Common.Protocol.Layout.{IsRequest}
use ride_hailing_system.Common.Rc4.{rc4_crypt}
use ride_hailing_system.Common.Dh.{derive_session_key}
use ride_hailing_system.Common.Dh.Exchange.{exchange}
use ride_hailing_system.Server.Double.Fixed.{fixed, fixed-IsOrdered, fixed-HasExactFares}
use ride_hailing_system.Server.State.{SharedState, IsSized}
use ride_hailing_system.Server.RateLimit.{tally, count_request, check_and_update_rate_limit}
use ride_hailing_system.Server.Ride.Text.{reply_text, IsPrinter}
use ride_hailing_system.Server.Dispatcher.{handle_client}
use ride_hailing_system.Client.Core.{hello_packet, ride_packet, request_data}
use ride_hailing_system.Client.Session.{
  IsText, Chances, HasBuffers, arrives, accepted, link_of, Session,
}
use ride_hailing_system.Client.Session.Run.{perform_ride_request-Session}
use ride_hailing_system.Client.Session.Blocked.{handle_client_crash}
use ride_hailing_system.Client.Session.Text.{reply_text-IsText}
use ride_hailing_system.Client.Stress.{
  Attempt, World, unconnected, answered, run_schedule, start_world,
}
use ride_hailing_system.Client.Stress.History.{
  is_request, is_ride, is_failure, Account, attempts_of, HasHistory,
}
use ride_hailing_system.Client.Stress.Account.{run_schedule-HasHistory}
use ride_hailing_system.Client.Stress.Totals.{turns_of}
use ride_hailing_system.Client.Stress.Report.{
  StressReport, print_report, IsLineOf, print_report-AreLines,
}
use ride_hailing_system.Client.Single.{single_main}
use ride_hailing_system.Client.Single.Shown.{display_for, single_main-Session}
use ride_hailing_system.Common.Socket.{ClientAnswers, connect_to_server, client_socket}
use ride_hailing_system.Examples.Dispatcher.{empty_state}

-- Every number is printed as "1".
abbrev one_digit : ℕ → ℤ → List ℕ
one_digit _ _ = 49 ∷ []

one_digit-IsPrinter : IsPrinter one_digit
one_digit-IsPrinter = λ digits x. omega arith

reply_text-IsText_example : IsText (reply_text one_digit)
reply_text-IsText_example = reply_text-IsText one_digit one_digit-IsPrinter

abbrev chances : Chances
chances = record {
  client_rand = 3;
  server_rand = 5;
  now = 1700;
  rand1 = 41;
  rand2 = 18;
  resp_body = replicate 8 0;
  msg_buffer = replicate 1024 0;
  server_body = replicate 1024 0;
}

chances-HasBuffers : HasBuffers chances
chances-HasBuffers = record { resp_size = refl; msg_size = refl; body_size = refl }

-- The bytes of a coordinate.
abbrev bytes : List ℕ
bytes = replicate 8 64

client_seven-IsRequest : IsRequest (request_data (pos 7) bytes bytes)
unfolding request_data
client_seven-IsRequest = record {
  lat_size = refl;
  lon_size = refl;
  lat_bytes = omega arith;
  lon_bytes = omega arith;
}

-- After `n` requests of client 7 in second 1700.
abbrev state_after : ℕ → SharedState ℤ
state_after n = record empty_state {
  client_last_seen = set empty_state.client_last_seen 7 1700;
  client_req_count = set empty_state.client_req_count 7 (pos n);
}

state_after-IsSized : (n : ℕ) → IsSized ℤ (state_after n)
state_after-IsSized n = record {
  drivers_size = refl;
  last_seen_size = refl;
  req_count_size = refl;
  count_fits = omega arith;
}

state_after_first :
    check_and_update_rate_limit (pos 7) 1700 empty_state ≡ done (state_after 1, false)
unfolding check_and_update_rate_limit count_request tally
state_after_first = refl

state_after_fourth :
    check_and_update_rate_limit (pos 7) 1700 (state_after 3) ≡ done (state_after 4, true)
unfolding check_and_update_rate_limit count_request tally ◌+ℤ◌
state_after_fourth = refl

perform_ride_request-Session_example :
    Session (reply_text one_digit) (pos 7) bytes bytes chances empty_state (state_after 1)
perform_ride_request-Session_example =
    perform_ride_request-Session fixed-IsOrdered fixed-HasExactFares (reply_text one_digit)
      (reply_text-IsText one_digit one_digit-IsPrinter) 7 bytes bytes chances empty_state
      (state_after 1) (omega arith) client_seven-IsRequest chances-HasBuffers
      (state_after-IsSized 1) state_after_first

handle_client_crash_example :
    (cipher : List ℕ) × (rc4_crypt
        (request_bytes (request_data (pos 7) bytes bytes))
        (derive_session_key (exchange 3 5).secret 64)
      ≡ done cipher)
    × (handle_client
          (reply_text one_digit)
          (arrives chances (hello_packet (pos (exchange 3 5).pub_a))
            ∷ arrives chances
                (ride_packet (request_bytes (request_data (pos 7) bytes bytes)) cipher)
            ∷ [])
          (accepted chances (state_after 3))
        ≡ crash)
handle_client_crash_example =
    handle_client_crash (reply_text one_digit) 7 bytes bytes chances (exchange 3 5) (state_after 3)
      (state_after 4) (omega arith) client_seven-IsRequest chances-HasBuffers state_after_fourth

-- Client 1 fails to connect and succeeds then; client 2 is blocked.
abbrev clients : List (List (Attempt ℤ))
clients =
    (unconnected ∷ (answered (pos 0) (pos 20) (pos 50) ∷ []))
    ∷ ((answered (negsuc 1) (pos 20) (pos 30) ∷ []) ∷ [])

abbrev turns : List ℕ
turns = 0 ∷ 1 ∷ 1 ∷ 0 ∷ 0 ∷ []

run_schedule-HasHistory_example :
    (w' : World ℤ) × (accounts : List (Account ℤ)) × (run_schedule turns (start_world clients)
      ≡ done w')
    × (map attempts_of accounts ≡ clients)
    × HasHistory w' accounts
run_schedule-HasHistory_example = run_schedule-HasHistory turns clients (omega arith)

two_attempts :
    (attempts : List (Attempt ℤ)) → get_elem? clients 0 ≡ some attempts → length attempts < 3
two_attempts [] e = omega arith
two_attempts (a ∷ []) e = omega arith
two_attempts (a ∷ (b ∷ [])) e = omega arith
two_attempts (a ∷ (b ∷ (c ∷ rest))) e = cc

one_attempt :
    (attempts : List (Attempt ℤ)) → get_elem? clients 1 ≡ some attempts → length attempts < 2
one_attempt [] e = omega arith
one_attempt (a ∷ []) e = omega arith
one_attempt (a ∷ (b ∷ rest)) e = cc

schedule_is_fair :
    (j : ℕ) (attempts : List (Attempt ℤ))
    → get_elem? clients j ≡ some attempts
    → length attempts < turns_of j turns
schedule_is_fair zero attempts e = two_attempts attempts e
schedule_is_fair (suc zero) attempts e = one_attempt attempts e
schedule_is_fair (suc (suc j)) attempts e = cc

print_report-AreLines_example :
    (w' : World ℤ) × (r : StressReport ℤ) × (run_schedule turns (start_world clients) ≡ done w')
    × (print_report (length clients) w' ≡ done r)
    × All2 IsLineOf r.lines clients
    × (r.total_requests ≡ total_of (total_of is_request) clients)
    × (r.success_count ≡ total_of (total_of is_ride) clients)
    × (r.fail_count ≡ total_of (total_of is_failure) clients)
print_report-AreLines_example = print_report-AreLines turns clients (omega arith) schedule_is_fair

-- `client 127.0.0.1 8080 7`.
abbrev argv : ℕ → ℤ
argv zero = pos 0
argv (suc zero) = pos 0
argv (suc (suc zero)) = pos 8080
argv (suc (suc (suc i))) = pos 7

abbrev good_answers : ClientAnswers
good_answers = record { socket = some 5; inet_pton = true; connect = λ _. true }

client_connects : connect_to_server good_answers (pos 8080) [] ≡ (some 5, 5 ∷ [])
unfolding connect_to_server client_socket
client_connects = refl

-- The exchange of client 7 with a server that has no drivers.
abbrev ExchangeOfSeven : Type 0
ExchangeOfSeven =
    Session (reply_text one_digit) (pos 7) bytes bytes chances empty_state (state_after 1)

seven_is_served : ExchangeOfSeven
seven_is_served =
    perform_ride_request-Session fixed-IsOrdered fixed-HasExactFares (reply_text one_digit)
      (reply_text-IsText one_digit one_digit-IsPrinter) 7 bytes bytes chances empty_state
      (state_after 1) (omega arith) client_seven-IsRequest chances-HasBuffers
      (state_after-IsSized 1) state_after_first

single_main-Session_example :
    single_main 4 argv good_answers bytes bytes 3
      (replicate 8 0)
      (link_of seven_is_served.ack seven_is_served.response)
      (replicate 1024 0)
      []
    ≡ done (record {
      display = display_for (reply_text one_digit) true seven_is_served.r.1;
      exit_code = pos 0;
      fds = [];
    })
single_main-Session_example =
    single_main-Session (reply_text one_digit) (reply_text-IsText one_digit one_digit-IsPrinter) 4
      argv good_answers bytes bytes chances [] 5 empty_state (state_after 1) (omega arith)
      client_connects seven_is_served
