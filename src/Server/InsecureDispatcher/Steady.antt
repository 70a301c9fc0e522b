-- ===== src/Server/InsecureDispatcher/Steady.antt =====
-- A worker of src/server/insecure_dispatcher.c under whatever arrives.
use ride_hailing_system.Prelude.{
  ℕ, ◌≡◌, Bool, true, false, ltb, ◌==◌, ◌&&◌, ◌||◌, not, if◌then◌else◌, Option, none, some, List,
  [], ◌∷◌, length, Exec, done,
}
use ride_hailing_system.Common.Protocol.{Packet, op_req_ride, op_driver_join}
use ride_hailing_system.Server.Double.{Double}
use ride_hailing_system.Server.State.{SharedState}
use ride_hailing_system.Server.Dispatcher.{Arrival, has_packets}
use ride_hailing_system.Server.Dispatcher.Loop.{IsServing}
use ride_hailing_system.Server.InsecureDispatcher.{Connected}

-- The buffer holds 1024 bytes.
abbrev pub HasBuffer : Option Connected → Type 0
HasBuffer none = Unit
HasBuffer (some c) = length c.body ≡ 1024

-- The opcodes that are answered, and the packets that are: complete ones that fit the buffer.
abbrev pub has_answer : ℕ → Bool
has_answer opcode = (opcode == op_req_ride) || (opcode == op_driver_join)

abbrev pub is_answered : Arrival → Bool
is_answered a =
    not (ltb 1024 a.header.body_length)
    && ((a.header.body_length == 0) || (length a.bytes == a.header.body_length))
    && has_answer a.header.opcode

-- A client that kills the worker: it would get an answer, but has closed its connection.
abbrev pub is_deadly : Option Connected → Bool
is_deadly none = false
is_deadly (some c) = c.closed && is_answered c.arrival

abbrev pub survives : List (Option Connected) → Bool
survives [] = true
survives (client ∷ clients) =
    let rest = survives clients in if is_deadly client then false else rest

module _ {W : Type 0} where
  -- A normal end, on a well-formed state, with an answer or without.
  abbrev EndsWell : Bool → Exec (SharedState W × List Packet) → Type 0
  EndsWell answers m =
      (r : SharedState W × List Packet) × (m ≡ done r) × IsServing r.0 × (has_packets r.1 ≡ answers)
