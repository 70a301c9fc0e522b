-- ===== src/Client/Single.antt =====
-- `main` of src/client/single_client.c: one ride request, and what is printed of its result. The
-- numbers that `atoi` makes of the arguments and the answers of the system are arguments.
pub mod Shown
use ride_hailing_system.Prelude.{
  ℕ, ltb, ◌==◌, if◌then◌else◌, Option, none, some, List, [], ◌∷◌, Exec, done, crash, ◌>>=◌, ℤ, pos,
  negsuc, leb_ℤ, eqb_ℤ, Bool,
}
use ride_hailing_system.Common.Socket.{close_fd, ClientAnswers, connect_to_server}
use ride_hailing_system.Client.Core.{Link, ClientRun, perform_ride_request}

-- What the program prints: its usage, that there is no connection, or the result of the request
-- with the text of the server. `vip` is the line on the kind of the customer.
pub data Display : Type 0 where
  usage no_connection : Display
  success blocked failed : (vip : Bool) → List ℕ → Display

-- What is printed, the exit code, and the open descriptors.
pub record SingleRun : Type 0 where
  pub display : Display
  pub exit_code : ℤ
  pub fds : List ℕ

-- The string that `%s` reads from a buffer: a crash at its end if there is no NUL.
pub read_string : List ℕ → Exec (List ℕ)
read_string [] = crash
read_string (b ∷ buffer) =
    let rest = read_string buffer in
    let longer = rest >>= λ text. done (b ∷ text) in if b == 0 then done [] else longer

abbrev pub display_of : Bool → ℤ → List ℕ → Display
display_of vip result text =
    if eqb_ℤ result (pos 0)
    then success vip text
    else (if eqb_ℤ result (negsuc 1) then blocked vip text else failed vip text)

-- The result on the screen, and the closed socket.
abbrev pub show_result : Bool → ℕ → List ℕ → ClientRun → Exec SingleRun
show_result vip sock_fd fds run = do
  text ← read_string run.msg_buffer
  done (record {
    display = display_of vip run.result text;
    exit_code = pos 0;
    fds = close_fd sock_fd fds;
  })

-- From the connection on.
abbrev pub request_once :
    ℤ → List ℕ → List ℕ → ℕ → List ℕ → Link → List ℕ → Option ℕ × List ℕ → Exec SingleRun
request_once client_id lat lon rand resp_body link msg_buffer (none, fds) =
    done (record { display = no_connection; exit_code = negsuc 0; fds = fds })
request_once client_id lat lon rand resp_body link msg_buffer (some sock_fd, fds) =
    perform_ride_request client_id lat lon rand resp_body link msg_buffer
    >>= show_result (leb_ℤ client_id (pos 10)) sock_fd fds

unfoldable pub single_main :
    ℕ
    → (ℕ → ℤ)
    → ClientAnswers
    → List ℕ
    → List ℕ
    → ℕ
    → List ℕ
    → Link
    → List ℕ
    → List ℕ
    → Exec SingleRun
single_main argc argv system lat lon rand resp_body link msg_buffer fds =
    if ltb argc 4
    then done (record { display = usage; exit_code = negsuc 0; fds = fds })
    else request_once (argv 3) lat lon rand resp_body link msg_buffer
        (connect_to_server system (argv 2) fds)
