-- ===== src/Lib.antt =====
-- tavernmx: a chat program made of a TLS server and a desktop client (C++, under src/ and
-- include/tavernmx/ of the repository). This library models its own logic, as functions that can be
-- run, and proves what makes it correct.
--
-- The parts, and how they interact. A connection carries message blocks (src/shared/ssl.cpp); a block
-- holds messages, which are JSON values in MessagePack (src/shared/messaging.cpp). On the server one
-- worker per client moves messages between its connection and two queues
-- (src/server/workers/client-worker.cpp), and one server worker takes the messages of all clients
-- from those queues, changes the rooms and the chat history, and queues replies, notices and echoes
-- (src/server/workers/server-worker.cpp). On the client one worker moves messages
-- (src/client/workers/serverconnection-worker.cpp), and the handlers of the chat window apply them to
-- the rooms and the screen (src/client/workers/chatwindow-worker.cpp).
--
-- The files, and the code that each is about:
--   Common       tests, lists, integers, texts, hash maps as lists of pairs, and results that stand
--                for C++ calls that may throw
--   RingBuffer   RingBuffer<T, Capacity> and its Iterator (include/tavernmx/ringbuffer.h)
--   Queue, Stack ThreadSafeQueue<T>, ThreadSafeStack<T> (queue.h, stack.h)
--   Util         tokenize_string, str_tolower (src/shared/util.cpp)
--   Rooms        Room, RoomManager<T>, is_valid_room_name (room.h, src/shared/room.cpp)
--   Json         the interface to nlohmann::json, with the laws that are relied on; Json/Sample is an
--                implementation of it for the tests
--   Messaging    messages (messaging.h), blocks, packing, history messages (src/shared/messaging.cpp)
--   Ssl          receive_message, send_message, is_connected, verify_certificate (src/shared/ssl.cpp);
--                Errors holds the texts of errors, and the calls that load certificates
--   Transport    BaseConnection (connection.h, src/shared/connection.cpp) over the answers of OpenSSL;
--                Connect is ServerConnection::connect (src/client/serverconnection.cpp) and the thread
--                that connects (src/client/workers/connectscreen-worker.cpp), Accepted says when it
--                makes a connection
--   Connection   wait_for, wait_for_ack_or_nak, send_messages (src/shared/connection.cpp), and the
--                rounds of the two connection workers; Handshake is the start of client_worker and
--                what the connecting thread (connectscreen-worker.cpp) makes of the answer, and Loops
--                is both workers from their beginning to their end
--   Server       ServerRoom, ClientConnection (server.h); History, Worker and Round are the history,
--                the handlers and the rounds of server_worker; Manager is the
--                ClientConnectionManager (src/server/clientconnection.cpp), and Program the accept
--                loop of the server's main (src/server/main.cpp)
--   Client       ClientRoom (client-rooms.h), ChatWindowScreen (client-ui.h,
--                src/client/client-ui/chatwindow.cpp), with the colors of names in Color; Update
--                holds the handlers of the chat window
--   Ui           ClientUi, the stack of screens (client-ui.h, src/client/client-ui/ui.cpp); Handlers is
--                the table of a screen (screen.cpp), Connect the connect screen and its handler
--                (connect.cpp, src/client/workers/connectscreen-worker.cpp), Session the screens that
--                follow it (connecting.cpp) and the threads they start, and Program the client's main
--                from its first screen on (src/client/main.cpp)
--   Chat         the way of a chat line through all of them, from one client to another
--   Config       ServerConfiguration (src/server/serverconfiguration.cpp) and ClientConfiguration
--                (src/client/clientconfiguration.cpp)
--
-- State is passed explicitly: an operation takes the state and returns the one after it. A call under
-- a mutex is one atomic step, and the interleavings of threads are sequences of such steps. A
-- `std::shared_ptr` to a room is the room's name, and a connection is known by an id; a `std::weak_ptr`
-- to it is the id, with a function that tells which connections still exist. An exception is `err`,
-- and so is a failed assert or undefined behaviour. Whether asserts are compiled out is the argument
-- `ndebug`. `size_t`, `uint32_t` and `int32_t` wrap where the code's values can reach the bound.
--
-- Code that is not in the repository is an argument: JSON is the record `Json`, the answers of
-- OpenSSL are lists in the order of the calls, and clocks are numbers. A loop over such answers is a
-- recursion on their list and says so where they are used up. The walk over a ring buffer has the
-- capacity as its fuel, which is enough because the walk visits fewer slots than there are, and the
-- loop that lightens a color has a fuel of 8 rounds. The loop that does the requests of the screen
-- stack has one round more than there are requests.
--
-- What a thread meets in a round of its loop (whether the connection is up, what is read, whether
-- sending returns, the time) is given with the round, and so is what the thread pool reports to the
-- accept loop. Where a round throws, what its thread leaves is given as it was before that round.
--
-- Left out: drawing, logging, sleeping, the start of the server before it accepts clients, and the
-- window system of the client. Of an exception whose text nothing reads, such as TransportError, only
-- the kind is kept. In a frame one widget at most is active, as in Dear ImGui. Labels of rooms are
-- modelled apart from the room list: the list is kept as it is meant, and `room_label` is what happens
-- to the memory.
pub mod Common
pub mod RingBuffer
pub mod Util
pub mod Queue
pub mod Stack
pub mod Rooms
pub mod Json
pub mod Messaging
pub mod Ssl
pub mod Server
pub mod Client
pub mod Config
pub mod Ui
pub mod Transport
pub mod Connection
pub mod Chat
