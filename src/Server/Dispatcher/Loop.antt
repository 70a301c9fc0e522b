-- ===== src/Server/Dispatcher/Loop.antt =====
-- A worker of the dispatcher over all its connections.
use ride_hailing_system.Prelude.{
  ℕ, true, false, ◌≡◌, ◌⊎◌, List, ◌∷◌, ◌++◌, length, All, Option, none, some, done, crash, pos,
}
use ride_hailing_system.Common.Rc4.Keystream.{IsByte}
use ride_hailing_system.Server.Double.{Double}
use ride_hailing_system.Server.State.{SharedState, IsSized}
use ride_hailing_system.Server.Ride.{Reply}
use ride_hailing_system.Server.Dispatcher.{
  Connection, Accepted, new_connection, handle_client, has_packets, dispatcher_loop,
}
use ride_hailing_system.Server.Dispatcher.Ready.{IsBlocked}

-- The buffer holds 1024 bytes, and what arrives is bytes.
abbrev pub IsAccepted : Option Accepted → Type 0
IsAccepted none = Unit
IsAccepted (some client) =
    (length client.body ≡ 1024)
    × All IsByte client.body
    × All (λ a. All IsByte a.bytes) client.arrivals

-- The arrays have their sizes, and the count of drivers is not negative.
pub record IsServing {W : Type 0} (s : SharedState W) : Type 0 where
  pub sized : IsSized W s
  pub drivers : ℕ
  pub count : s.driver_count ≡ pos drivers

module _ {W : Type 0} ⦃d : Double W⦄ (text : Reply W → List ℕ) where
  -- After some connections that ended well, the limiter blocks a client on the state of that moment.
  pub record IsCut (clients : List (Option Accepted)) (s : SharedState W) : Type 0 where
    pub before : List (Option Accepted)
    pub client : Accepted
    pub after : List (Option Accepted)
    pub all : clients ≡ before ++ (some client ∷ after)
    pub reached : SharedState W
    pub served : dispatcher_loop text before s ≡ done (reached, true)
    pub blocked : IsBlocked client.arrivals reached

  -- After some connections that ended well, a client is sent a packet but has closed its connection.
  pub record IsHungUp (clients : List (Option Accepted)) (s : SharedState W) : Type 0 where
    pub before : List (Option Accepted)
    pub client : Accepted
    pub after : List (Option Accepted)
    pub all : clients ≡ before ++ (some client ∷ after)
    pub reached : SharedState W
    pub served : dispatcher_loop text before s ≡ done (reached, true)
    pub closed : client.closed ≡ true
    pub connection : Connection W
    pub handled :
        handle_client text client.arrivals (new_connection client.body reached) ≡ done connection
    pub sent : has_packets connection.sent ≡ true

  -- The worker serves all its connections; or SIGPIPE ends it, where a client has hung up; or it
  -- crashes, where a client is blocked.
  abbrev pub WorkerEnds : List (Option Accepted) → SharedState W → Type 0
  WorkerEnds clients s =
      ((s' : SharedState W) × (dispatcher_loop text clients s ≡ done (s', true)) × IsServing s')
      ⊎ (((s' : SharedState W) × (dispatcher_loop text clients s ≡ done (s', false))
            × IsServing s'
            × IsHungUp clients s)
          ⊎ ((dispatcher_loop text clients s ≡ crash) × IsCut clients s))
