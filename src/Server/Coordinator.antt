-- ===== src/Server/Coordinator.antt =====
-- `process_driver_join` of src/server/coordinator.c: a driver joins at the next place of the array.
pub mod Join
use ride_hailing_system.Prelude.{
  ℕ, true, if◌then◌else◌, List, [], Exec, done, crash, ◌>>=◌, read, write, ℤ, pos, negsuc, ltb_ℤ,
  ◌+ℤ◌,
}
use ride_hailing_system.Common.Protocol.{msg_type_ride_resp, op_response, Packet, load}
use ride_hailing_system.Server.State.{Driver, SharedState, max_drivers}

module _ {W : Type 0} where
  -- `drivers[idx] = v`, a crash outside the array.
  pub write_driver : List (Driver W) → ℤ → (Driver W → Driver W) → Exec (List (Driver W))
  write_driver drivers (pos idx) change = read drivers idx >>= λ v. write drivers idx (change v)
  write_driver drivers (negsuc idx) change = crash

  pub join : ℕ → SharedState W → Exec (SharedState W)
  join driver_id state = do
    let change =
        λ (v : Driver W). record v { driver_id = driver_id; is_available = true; fuel = pos 10 }
    drivers ← write_driver state.drivers state.driver_count change
    done (record state { drivers = drivers; driver_count = state.driver_count +ℤ pos 1 })

  pub process_driver_join : List ℕ → SharedState W → Exec (SharedState W)
  process_driver_join body state = load 4 0 body >>= λ driver_id.
      if ltb_ℤ state.driver_count (pos max_drivers) then join driver_id state else done state

-- The answer to a driver that joins.
abbrev pub join_answer : Packet
join_answer = record {
  header = record {
    body_length = 0;
    type = msg_type_ride_resp;
    opcode = op_response;
    checksum = 0;
  };
  body = [];
}
