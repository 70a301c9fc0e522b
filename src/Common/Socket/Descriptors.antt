-- ===== src/Common/Socket/Descriptors.antt =====
-- No descriptor is lost, whichever call fails.
use ride_hailing_system.Prelude.{
  ℕ, ◌≡◌, refl, arith, Bool, true, ◌&&◌, ◌==◌, Bool-cases, ◌⊎◌, inl, inr, Option, Option-cases,
  none, some, List, ◌∷◌, ℤ,
}
use ride_hailing_system.Common.Socket.{
  port_number, close_fd, ServerAnswers, set_up, server_socket, create_server_socket, ClientAnswers,
  client_socket, connect_to_server,
}

pub close_first : (fd : ℕ) (fds : List ℕ) → close_fd fd (fd ∷ fds) ≡ fds
unfolding close_fd
close_first fd fds = let same : (fd == fd) ≡ true = ground arith in rw same

-- A failure, after which the same descriptors are open as before; or a success, where every call
-- has succeeded and exactly the new descriptor is open in addition.
abbrev pub IsClean : Option ℕ → Bool → List ℕ → Option ℕ × List ℕ → Type 0
IsClean socket well fds r =
    (r ≡ (none, fds)) ⊎ ((fd : ℕ) × (socket ≡ some fd) × (well ≡ true) × (r ≡ (some fd, fd ∷ fds)))

-- Whichever calls of the system fail, create_server_socket either returns -1 with the same
-- descriptors open as before, or every call has succeeded and it returns a new descriptor, which is
-- the only one open in addition.
pub create_server_socket-IsClean :
    (system : ServerAnswers) (port : ℤ) (fds : List ℕ)
    → IsClean system.socket
        (system.setsockopt && (system.bind (port_number port) && system.listen))
        fds
        (create_server_socket system port fds)
unfolding create_server_socket server_socket set_up
create_server_socket-IsClean system port fds = elim (Option-cases system.socket) [
  | inl failed ↦ rw failed (inl refl)
  | inr (fd, e) ↦ elim (Bool-cases system.setsockopt) [
    | inr no_option ↦ rw (e, no_option, close_first fd fds) (inl refl)
    | inl option ↦ elim (Bool-cases (system.bind (port_number port))) [
      | inr no_address ↦ rw (e, option, no_address, close_first fd fds) (inl refl)
      | inl bound ↦ elim (Bool-cases system.listen) [
        | inr deaf ↦ rw (e, option, bound, deaf, close_first fd fds) (inl refl)
        | inl listens ↦ rw (e, option, bound, listens) (inr (fd, refl, refl, refl))
      ]
    ]
  ]
]

-- The same for connect_to_server.
pub connect_to_server-IsClean :
    (system : ClientAnswers) (port : ℤ) (fds : List ℕ)
    → IsClean system.socket
        (system.inet_pton && system.connect (port_number port))
        fds
        (connect_to_server system port fds)
unfolding connect_to_server client_socket
connect_to_server-IsClean system port fds = elim (Option-cases system.socket) [
  | inl failed ↦ rw failed (inl refl)
  | inr (fd, e) ↦ elim (Bool-cases system.inet_pton) [
    | inr no_address ↦ rw (e, no_address, close_first fd fds) (inl refl)
    | inl address ↦ elim (Bool-cases (system.connect (port_number port))) [
      | inr refused ↦ rw (e, address, refused, close_first fd fds) (inl refl)
      | inl connected ↦ rw (e, address, connected) (inr (fd, refl, refl, refl))
    ]
  ]
]
