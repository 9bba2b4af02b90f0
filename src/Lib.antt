-- ===== src/Lib.antt =====
-- YuwiboServer: a game server on io_uring, with TLS, protobuf messages and a MySQL user table. A
-- worker thread waits for completions of its ring and hands them to sessions; a session decrypts
-- what it receives, cuts it into packets and calls the packet's handler; handlers use the rooms and
-- the database, and answer through the sessions, which encrypt, queue and send.
--
-- Which file models what (paths from the repository's root):
--   Prelude        Boolean tests, lists over the native numbers, the outcome of C++ code, words
--   Buffer         Buffer.h, Buffer.cpp, RecvBuffer.*, SendBuffer.*: Write is `write`, GetStoredSize
--                  is `get_stored_size`, and so on for every method
--   Framing        the wire format of Session.cpp: `build_packet` in Send, ProcessPacket is
--                  `process_packet`
--   Text, Messages std::string and UnrealEngineMessage.proto
--   Database       DatabaseManager.*, Hash.*; the user table as a map in Database/Accounts;
--                  Packets/Rows has what the handlers rely on in the database's answers
--   Rooms          Room.*, RoomManager.*; the invariant of the rooms in Rooms/Lobby; the mutexes of
--                  several threads in Rooms/Locks
--   Packets        PacketHandler.*, and Session::HandlePacket in Packets/Dispatch; packets and
--                  sessions as the steps of a state machine in Packets/Reachable
--   Tls            the loops of TLS.cpp; its constructor and SslContextManager.* in Tls/Setup
--   Session        Session.*: OnRecv is `on_recv`, SendInternal is `send_internal`, and so on; the
--                  receive buffers of a whole stream in Session/Delivery; OnRecv from the encrypted
--                  bytes to the packets in Session/Handling, and during the handshake in
--                  Session/Shaking; Send from a message to the queue in Session/Posting, and OnSend
--                  from the queue on in Session/Draining
--   Listener       Listener.*, RequestContext.h
--   Server         Worker.*, SessionManager.*, ThreadManager.*; Worker::Join and the end of Stop in
--                  Server/Joining; the end of a worker with its sessions in Server/Ending
--   Program        ThreadManager::Launch and Worker::Start; main.cpp in Program/Main
--   Examples       concrete runs
-- The data of Rooms, Session and Server stand in their child modules State. A component's theorems
-- stand in its child modules too, named for what they are about.
--
-- Code that is not in the repository is a parameter: `Driver` (the MySQL client and libsodium), `Ssl`
-- and `Openssl` (OpenSSL), `Uring` (io_uring), `Parser` (protobuf), and `Iteration` (the order in which an
-- unordered container is gone through). A session is a number in Rooms, with `alive` for whether it
-- was deleted; in Server it is an object behind the interface `SessionOps`, which Server/Sessions
-- fills with the functions of Session.
--
-- The results of a query are bound to buffers of the code's sizes. A name that is NULL makes GetUserInfo
-- read an uninitialised length, which is a fault; the theorems on rooms say for which users the query
-- has to return. A worker without a thread has a ring that was not set up, and using it is a fault.
--
-- A result is an `Outcome`: `ok`, `fault` (undefined behaviour: an access out of bounds or to a deleted
-- object, a read of an uninitialised variable), `deadlock` (a mutex is locked twice by one thread, or a
-- thread is joined that does not end) or `spins` (the fuel of a loop ran out). Fuel is the number of bytes or rooms a loop goes through plus
-- one: each round of `process_loop` takes two bytes at least, each round of `feed_tls` and `drain` one
-- byte, each round of `find_free_key` one taken key.
--
-- A `size_t` wraps round at 2 ^ 64, and a `uint16_t` at 2 ^ 16. Buffers are shown correct below 2 ^ 62
-- bytes, far above what the server allocates.
--
-- The waiting loops of `main` go through lists of the values read; what the workers do meanwhile is a
-- function of the server. The state between the two halves of a turn of Launch is a value of its own.
--
-- The threads that Rooms/Locks lets run take their steps in any order; there only the mutexes count. In
-- the other files an operation runs as a whole.
--
-- Not modelled: output to the console, generated protobuf code, data races outside the mutexes, and
-- what two workers do to one server at the same time.
pub mod Prelude
pub mod Buffer
pub mod Framing
pub mod Text
pub mod Messages
pub mod Database
pub mod Rooms
pub mod Packets
pub mod Tls
pub mod Session
pub mod Listener
pub mod Server
pub mod Program
pub mod Examples
