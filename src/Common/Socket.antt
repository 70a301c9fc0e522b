-- ===== src/Common/Socket.antt =====
-- `create_server_socket` and `connect_to_server` of src/common/net_wrapper.c. What the system answers
-- is an argument: a new descriptor or none, and whether the other calls succeed, which may depend on
-- the port. The state is the list of the open descriptors.
pub mod Descriptors
use ride_hailing_system.Prelude.{
  ℕ, ◌+◌, ◌-◌, ◌%◌, ◌^◌, Bool, ◌==◌, if◌then◌else◌, Option, none, some, List, [], ◌∷◌, ℤ, pos,
  negsuc,
}

-- `htons(port)` takes the port modulo 2^16.
unfoldable pub port_number : ℤ → ℕ
port_number (pos n) = n % 2 ^ 16
port_number (negsuc n) = 2 ^ 16 - 1 - n % 2 ^ 16

-- `close(fd)`.
pub close_fd : ℕ → List ℕ → List ℕ
close_fd fd [] = []
close_fd fd (other ∷ fds) = let rest = close_fd fd fds in if fd == other then fds else other ∷ rest

pub record ServerAnswers : Type 0 where
  pub socket : Option ℕ
  pub setsockopt : Bool
  pub bind : ℕ → Bool
  pub listen : Bool

-- A descriptor, or `none` for -1; and the open descriptors.
unfoldable pub set_up : ServerAnswers → ℤ → ℕ → List ℕ → Option ℕ × List ℕ
set_up system port fd fds =
    if system.setsockopt
    then (if system.bind (port_number port)
        then (if system.listen then (some fd, fds) else (none, close_fd fd fds))
        else (none, close_fd fd fds))
    else (none, close_fd fd fds)

unfoldable pub server_socket : ServerAnswers → ℤ → Option ℕ → List ℕ → Option ℕ × List ℕ
server_socket system port none fds = (none, fds)
server_socket system port (some fd) fds = set_up system port fd (fd ∷ fds)

unfoldable pub create_server_socket : ServerAnswers → ℤ → List ℕ → Option ℕ × List ℕ
create_server_socket system port fds = server_socket system port system.socket fds

pub record ClientAnswers : Type 0 where
  pub socket : Option ℕ
  pub inet_pton : Bool
  pub connect : ℕ → Bool

unfoldable pub client_socket : ClientAnswers → ℤ → Option ℕ → List ℕ → Option ℕ × List ℕ
client_socket system port none fds = (none, fds)
client_socket system port (some fd) fds =
    if system.inet_pton
    then (if system.connect (port_number port)
        then (some fd, fd ∷ fds)
        else (none, close_fd fd (fd ∷ fds)))
    else (none, close_fd fd (fd ∷ fds))

unfoldable pub connect_to_server : ClientAnswers → ℤ → List ℕ → Option ℕ × List ℕ
connect_to_server system port fds = client_socket system port system.socket fds
