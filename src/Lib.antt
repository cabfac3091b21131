-- ===== src/Lib.antt =====
-- sricd, the daemon between a SRIC bus and its clients: a verification library.
--
-- The program's parts. The serial interface (sricd/sric-if.c) takes frames off the transmit queue,
-- escapes them and writes them to the serial port, one at a time: a frame that wants an
-- acknowledgement stays in hand until one arrives or its timer fires. What it reads it unescapes
-- into frames; it acknowledges requests, hands notes to the device table, and hands
-- acknowledgements to the enumeration or, once that is over, to the client who sent the frame.
-- Programs are linked with libsric, which talks to the daemon over a socket: one request, one
-- answer. For tests ostric takes the place of the bus, and trumpets stands in between and flips
-- bits.
--
-- World models the static data of all files as one record, with the frames of sricd/frame.h and
-- sricd/output-queue.h and the ends a call can have (Outcome). A GQueue is the list of its
-- entries, an array a function of its index or a list of its bytes, and the heap of clients a
-- function of the address. `calls` lists what the program did outside: writes, timers, watches.
--
-- Which file models which part:
--   Escape      sricd/escape.c: escape_frame, unescape, unescape_frame. Escape/RoundTrip and
--               Escape/Laws hold the proofs.
--   Crc16       sricd/crc16/crc16-build.c: the table generator, and the function it prints.
--   OutputQueue sricd/output-queue.c: txq_init, txq_push, txq_next, txq_empty, txq_cancel.
--   Client      sricd/client.c, and rx_ping, note_ping and send_rx of sricd/ipc.c.
--               Client/Destroy is client_destroy; Waiting, Noting, Release and Delivery hold the
--               proofs.
--   Device      sricd/device.c: the table of devices and who is told of their notes. Notes,
--               Registration, Reset and Dispatch hold the proofs.
--   Ipc         sricd/ipc.c: the requests of a client and its timers. Requests goes from
--               read_data to handle_tx. SetUp is the socket on which clients connect: ipc_boot,
--               ipc_init, ipc_listen and ipc_death. Polling and Timeouts hold the proofs.
--   SricEnum    sricd/sric-enum.c: the enumeration and its timers; Commands is what it queues.
--               StartUp, Steps, Rounds, Session, Invariant, Footprint and Cut hold the proofs.
--   SricIf      sricd/sric-if.c: Ready is sric_if_tx_ready and sric_if_cancel, Receive goes from
--               read_incoming to rx, Transmit from next_tx to if_tx and tx_timeout. Link is about
--               both directions together, Transmit/Retry about retransmission, Transmit/Watch
--               about the watch on the port, Transmit/Short about writes that take a part,
--               Receive/Whole about one frame alone. Serial is serial_conf, Init sric_if_init.
--   Terminal    <termios.h>, a parameter: the flags, and the calls with what POSIX says of them.
--               Settings holds the proof on serial_conf, of the daemon and of trumpets.
--   Libsric     libsric/sric.c and libsric/sric.h, the library of the clients: Core is the context
--               and send_command, Transfer goes from sric_tx to sric_note, Notes is the flags,
--               Devices the list of devices. Retry holds a proof.
--   Protocol    libsric/sric.c against sricd/ipc.c, byte by byte: Sending, Polling, Flags and
--               Devices (with Listing) are one request each, Stream is the connection.
--   Ostric      ostric, a bus of simulated devices behind a terminal: reply.c, Generic, Commands,
--               Token and Parsing. Rotation and Request hold the proofs on the token, Wire, Intake
--               and Blocked those on frames, Addressing, Enumerated and Enumeration that on the
--               addresses. StartUp is main, with the proof on it.
--   Simulation  sricd and ostric joined by a terminal: an exchange is a frame of the daemon, a
--               round of the bus and its answer. Speaking, Answering and Hearing hold the proofs on
--               its three parts, Exchange and Devices those on the steps, Unanswered that on a
--               frame without an answer, Enumeration that on the whole. Serving, Query and
--               RoundTrip follow the frame of a client, from libsric to a device and back.
--   Trumpets    trumpets/trumpets.c: rx_data and tx_data; Serial is its serial_conf, StartUp its
--               main. Steps, Passing and Pumping hold the proofs.
--   Daemon      sricd/sricd.c and sricd/log.c: the options, SIGTERM, restart, and wlog.
--               Init is sricd/init.c and main. Options and StartUp hold the proofs.
--   Examples    the theorems at concrete inputs.
--   Base        tests into Bool, lists and bits over the native numbers.
--
-- A function of C that can call exit, fail an assertion or do what C leaves undefined returns an
-- Outcome. Integers of fixed width wrap where the source wraps (% 256, % 65536).
--
-- The loop of rx runs on fuel, `rxpos + 1`: each round that goes on consumes a byte of rxbuf. The
-- other loops are structural: over the bytes, the entries of a list, or the rounds left of a loop
-- with a counter.
--
-- Platform is what the program takes from outside: the ids of GLib's sources, which are positive;
-- what an overlong shift gives; and whether a plain char is signed. What `read` and `write` on the
-- serial port return is an argument of the operations that call them; Input is what the socket of
-- a client holds for one request.
-- In libsric and ostric a Socket (World/Socket) is a stream in each direction, with the number of
-- bytes that each call takes.
--
-- TermiosCalls, SocketCalls, System and HostCalls are what the start of the daemon and of trumpets
-- takes from the system: the constants and calls of <termios.h>, and what socket, bind, open,
-- strtol and the like return. In Simulation the daemon writes a frame in one piece and reads an
-- answer in one piece, and the bus takes one round in between; it is at rest before each exchange.
--
-- Not modelled: the text of the log, daemon(3) itself (a flag says that it is called), the
-- output of ostric and trumpets, and the Python bindings (pysric). Memory is
-- never exhausted; a memcpy within one buffer moves the bytes.
pub mod Base
pub mod Escape
pub mod Crc16
pub mod World
pub mod SricIf
pub mod OutputQueue
pub mod Client
pub mod Daemon
pub mod Device
pub mod SricEnum
pub mod Ipc
pub mod Libsric
pub mod Ostric
pub mod Protocol
pub mod Simulation
pub mod Terminal
pub mod Trumpets
pub mod Examples
