-- ===== src/Lib.antt =====
-- A verification library for the ride-hailing system: a server that assigns drivers to ride
-- requests, and the code that it shares with its clients.
--
-- The program. A client connects, exchanges Diffie-Hellman keys with a dispatcher process and sends
-- a ride request, encrypted with RC4 and protected by a checksum. The dispatcher asks the rate
-- limiter and then the ride service, which searches a free driver in memory that all the server's
-- processes share, and updates it under a mutex. A monitor thread moves the drivers on a map of 40
-- by 20 cells with obstacles.
--
-- The files, and what they model:
--
-- - Prelude.antt and its children: the names of the libraries, Boolean tests, lists, integers, modular
--   powers, and `Exec`, the computations that end with a value or crash. A crash is what is undefined
--   in C: an access out of bounds, a signed overflow, a division by zero. An `int` is an integer,
--   with the wrap-around written out where the code counts without a bound.
-- - Common/Checksum.antt: `calculate_checksum` of src/common/protocol.c. The folding loop runs on
--   fuel 3; it ends within two rounds. Checksum/Fold.antt has the loops, Checksum/Laws.antt what is
--   detected.
-- - Common/Rc4.antt: `rc4_crypt` of src/common/net_wrapper.c, with the state array as a list of 256
--   bytes. Rc4/Keystream.antt has the invariant of the array, Rc4/RoundTrip.antt the round trip,
--   Common/Xor.antt the bitwise exclusive or.
-- - Common/Protocol.antt: the packets of src/common/include/protocol.h and their bytes, the lowest
--   byte of a number first. Protocol/Bytes.antt has the reads and writes of memory, and
--   Protocol/Layout.antt the header and the ride request.
-- - Common/Receive.antt and Common/Send.antt: `recv_n` and `send_n` of src/common/net_wrapper.c, with
--   the results of `read` and `write` as lists. Common/Socket.antt: the creation of sockets there,
--   with the answers of the system as arguments.
-- - Common/Log.antt: src/common/log_system.c, with the formatted texts as arguments.
-- - Common/Dh.antt: src/common/dh_crypto.c. The loop of `power_mod` runs on the exponent plus one as
--   fuel, which is enough since the exponent is halved in each round. `rand()` is an argument.
-- - Server/Double.antt: the `double` arithmetic of the server as an interface, with the laws that
--   theorems ask for; Double/Fixed.antt fills it with fixed-point numbers.
-- - Server/State.antt: the structures of src/common/include/shared_data.h. Each critical section is one
--   function on the state, which stands for the mutex.
-- - Server/Dispatch.antt: src/server/dispatch_algorithms.c. `none` is the index -1.
-- - Server/Ride.antt: src/server/ride_service.c. The reply is kept as the values that are printed.
--   Ride/Text.antt has its text, Ride/Fleet.antt sequences of requests, and Ride/Ledger.antt the
--   ride service as a ledger that forgets which driver is chosen.
-- - Server/RateLimit.antt and Server/Resource.antt: src/server/resource_service.c. The time is an
--   argument.
-- - Server/Pricing.antt: src/server/pricing_service.c.
-- - Server/Pathfinding.antt: src/server/pathfinding.c. The search loop has the code's own bound of
--   3000 steps, its open list the code's 4000 entries.
-- - Server/MapMonitor.antt: the loop over the drivers in src/server/map_monitor.c. The values of
--   `rand()` are arguments. MapMonitor/Modes.antt is about one driver, MapMonitor/Events.antt about
--   the state under requests and rounds in any order: each holds the mutex, so that they do not
--   overlap.
-- - Server/Start.antt: the first state, from `main` of src/server/server_main.c.
-- - Server/MapView.antt: the drawing of the map into its array in src/server/map_monitor.c.
-- - Server/Dispatcher.antt: `handle_client` and `dispatcher_loop` of src/server/dispatcher.c, with the
--   packets that arrive as a list, and the packets that are sent. A write to a string literal is a
--   crash. The writes to the socket succeed inside `handle_client`; where the last one raises SIGPIPE,
--   since the client has closed its connection, `dispatcher_loop` ends. Dispatcher/Handshake.antt is about clients without a handshake, Dispatcher/Turns.antt and
--   Dispatcher/Honest.antt about those of the program, Dispatcher/Ready.antt,
--   Dispatcher/Robust.antt and Dispatcher/Loop.antt about any.
-- - Server/InsecureDispatcher.antt: src/server/insecure_dispatcher.c, with SIGPIPE in the same way.
-- - Server/Coordinator.antt: `process_driver_join` of src/server/coordinator.c.
-- - Server/Ipc.antt: `save_state`, `load_state` and `ipc_init` there, with the file as a value.
-- - Server/System.antt: the server at work. Each worker is a program, which does on its own what does
--   not touch the shared memory, and enters the critical sections of the limiter, of the ride
--   service and of `process_driver_join` one at a time; the monitor's round is another one. A
--   schedule is any order of these sections. A worker that a signal ends, SIGPIPE included, gets no
--   more turns; a program has no other trace of it. System/Steps.antt and System/Alone.antt compare a
--   program with `handle_client`, System/Memory.antt and System/Begin.antt are about
--   the memory, System/Budget.antt, System/Open.antt and System/Sessions.antt about how many sections
--   a program enters, System/Turns.antt and System/Schedule.antt about schedules,
--   System/Limit.antt, System/Counters.antt and System/Window.antt about the limiter in them.
-- - Server/Processes.antt: the forks, the waiting and `handle_sigint` of src/server/coordinator.c. A
--   worker that is killed is killed between two critical sections.
-- - Server/Main.antt: `main` of src/server/server_main.c and of src/server/insecure_server.c, and the
--   files of the first one. Main/Lifecycle.antt goes from the command line to the end of the server.
-- - Server/Screen.antt: what src/server/map_monitor.c prints, and its whole round, with what it reads
--   of the memory after the unlock as an argument. Screen/Rows.antt
--   and Screen/Drawn.antt are about the map, Screen/Table.antt about the table of the drivers.
-- - Server/Dump.antt: dump_dat.c, with the report as a record.
-- - Client/Core.antt: src/client/client_core.c, with what the socket delivers as an argument.
--   Client/Session.antt puts it together with the dispatcher: the packets that one end sends are
--   those that the other one receives.
-- - Client/Stress.antt: the threads of src/client/stress_client.c with their statistics and their
--   table. A step is one attempt of one thread, and a schedule is any order of steps: what a thread
--   does under the lock is one step, and an entry of the table is written by its own thread only.
--   Stress/History.antt says what the threads have met and what is counted and noted of it,
--   Stress/Notes.antt, Stress/Turn.antt and Stress/Account.antt that the code does so, Stress/Report.antt has the table and the summary that are printed.
-- - Client/Single.antt: `main` of src/client/single_client.c.
-- - Client/Malicious.antt: the request of src/client/malicious_client.c.
-- - Examples.antt: the theorems at concrete inputs.
--
-- Not modelled: `handle_signal` of src/server/server_main.c, which another handler replaces; `main` of
-- src/client/malicious_client.c, which connects and prints; `get_time_ms`, `get_time_str` and
-- `print_hex` of src/client/client_core.c, which read the clock and print for debugging; the columns
-- that `printf` makes of numbers; and the functions of the C library and the operating system.
pub mod Prelude
pub mod Common
pub mod Server
pub mod Client
pub mod Examples
