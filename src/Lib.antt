-- ===== src/Lib.antt =====
-- The server of the virtual blackboard: a class of students and one docent share one board of 1200
-- bytes, and at any time one of them may write on it.
--
-- The parts and how they interact. The server process accepts connections and runs one thread for
-- each (src/server/client_thread.c). The first message of a connection logs the client in: it gets
-- an id and a role and enters the client list (src/server/client_list.c). The thread then reads
-- headers and calls the handler of the message (src/server/message_handler.c). The handlers share
-- the client list, whose two pointers say who is the docent and who has the write access, and the
-- blackboard, which two semaphores protect. They trigger the broadcasting agent
-- (src/server/broadcasting.c), which sends the state or the board to the clients with the messages
-- of src/server/message_builder.c and src/net_message.c. Before a clear, the board handler lets the
-- archiver process (src/server/archiver.c) append the board to its file.
--
-- The files.
--   Prelude, with Tests, Lists, Family and Outcomes: library names, Boolean tests, lists measured by native
--     numbers, and `Outcome`, what a call of C code comes to: a result (`ok`), undefined behaviour
--     (`fault`), a wait for another thread (`blocked`), the end of the process (`exited`), or no
--     result within the fuel (`out_of_fuel`).
--   ClientList: src/server/client_list.c, one definition for each function and for each group of
--     statements of add_client and remove_client. The static variables are the record `ClientList`,
--     the entries are cells of a heap, and the mutex is the flag `locked`. Below it: Seg (the heap
--     and doubly linked segments), Relink, Represents (which list of clients a state stands for),
--     Lookup (the read-only functions), Add, Unlink, Remove, Granted and Ids.
--   Net, Net/Strings, Net/Build: src/net_message.h, src/net_message.c, C strings in memory, and
--     src/server/message_builder.c. A message is its bytes in network order.
--   Server/World: the state that the threads share, and the calls on it: recv, send and close,
--     what the handlers log, the semaphores of src/server/semaphore.c, the content that
--     init_blackboard of src/server/blackboard.c writes, and the triggers of
--     src/server/broadcasting.c. Server/Invariant: the invariant between two handler calls.
--   Server/RequestHandler, Server/ReplyHandler, Server/ShutdownHandler, Server/BoardHandler,
--     Server/LoginHandler: the five handlers of src/server/message_handler.c, with what they do to
--     the write access in RequestHandler/Policy, ReplyHandler/Answer and ShutdownHandler/Docent,
--     and to the board in BoardHandler/Content and BoardHandler/Access, and what a
--     login does in LoginHandler/Admitted, LoginHandler/Full, LoginHandler/Race and
--     LoginHandler/Total.
--   Server/ClientThread, with Refused, Full, Message, Session and Lifetime: client_handler of src/server/client_thread.c.
--   Server/Broadcasting, with Recipients, Numbers and Trigger: the agent of src/server/broadcasting.c.
--   Server/Reached, with Messages, Departures and Invariant: whole turns of the threads in any order
--     (a login, a message, a departure, a round of the agent), with any changes of the connections
--     in between. A reply that reads through NULL ends the process and is no turn.
--   Server/Threads: the steps of client threads in board_handler, of the agent, of the archiver's main
--     and of its debug_thread, between two calls that other threads can see, as a relation on the
--     shared state and the threads' places; what any number of threads can come to is `Reach`. Below
--     it: Counts (what they hold of the two semaphores), Rounds, Clear, Single and Lost.
--     BoardHandler/Semaphores is about the calls in it.
--   Server/Locks, with Deadlock: the mutex of the trigger in src/server/broadcasting.c and the mutex of the
--     client list, between `request_handler`, the callers of `trigger_broadcast` and the agent, as a
--     relation of the same kind.
--   Server/Logging, with Order: log_message of src/server/utils.c, the queue of src/server/mq.c and
--     src/server/mq.h, and the loop of src/server/logger.c; a run is a list of calls and rounds.
--   Server/LoginThread, with Handover: the accept loop of src/server/login_thread.c and the first
--     statement of client_handler, which reads the variable that the loop writes. The results of
--     `select` and `accept` are parameters.
--   Server/Options, Client/Options and Protocol/Port: the loops over the command line in main of
--     src/server/server.c and of src/client/client.c. `getopt` is the list of options that it finds,
--     and `strtol` a parameter.
--   Server/Sockets and Server/Startup, with Cleanup and First: the loop of main of
--     src/server/server.c that binds the sockets, and main from its lock (src/server/singelton.c) to
--     the forks and from there to its end, on what the system holds: the lock, the queue, the
--     semaphores and the blackboard, with the functions that create and delete them.
--   Client/TextView, with Rows, Whole and Emission: on_insert_text and on_delete_range of
--     src/client/gui.c. GTK's insertion, its deletion and its answers are parameters.
--   Client, with State, Print, Window, Commands, Events, Board and Listener: the client program of src/client:
--     its state (shared.h, the static variables of client.c), `sprintf` into a buffer, updateGUIstate,
--     updateBoard with the handlers that GTK calls in it, the messages of command_thread.c and liveagent_thread.c with the rounds of
--     their threads, the event handlers of client.c, and listener_thread.c. Window/Refresh,
--     Board/Shown, Events/Changes, Events/Buttons, Listener/Status, Listener/Dialogs and Listener/Ends are about
--     them.
--   Protocol, with Messages, Login, Grant and Board: the client's messages at the server and back.
--   Tests, with Messages, Reached, Threads, Locks, Logging, LoginThread, Options, Startup and
--     TextView: the theorems at a small class.
--
-- The environment is a part of the state: what each connection still delivers and how it ends,
-- which sockets take data, what fresh memory holds, the text of the clock, and what GTK's text buffer
-- makes of a text. `malloc` is a
-- parameter, the address it returns. The field of a header that C calls `length` is called `size`.
--
-- Bounds and fuel. A walk along the client list has the fuel `max_entries`, 65536: ids are given out
-- at most 65535 times, so that no list is as long. The loop of a client thread has one unit of fuel
-- for each byte that the connection still delivers and one more: each round takes at least one byte
-- or ends the loop. The listener of the client has the same fuel. A number is printed with at
-- most 19 digits, as a `long int` has. The counters of 16 and 32 bits keep their wrap-around.
--
-- The limit on the queue's bytes is a parameter, and the layout of `struct logmessage` is that of a
-- 64-bit machine. The steps in Server/Threads have no bound, neither has the number of threads.
--
-- Not modelled. In the handlers' own modules a handler runs to its end before another one starts; the
-- archiver's round stands between the two locks of the board handler, and two logins are composed
-- step by step in Server/LoginHandler/Race. Server/Threads interleaves what concerns the blackboard
-- and its semaphores, not the client list.
-- What the system's own calls do (sockets, signals, `execlp`, shared memory that cannot be attached)
-- is a parameter where a function tests for it, and left out otherwise; src/server/signal_handler.c
-- only prints.
-- The handlers keep a list of what they log, as if the queue took every message; what becomes of a
-- call that it does not take is in Server/Logging. The mutex of the trigger is in Server/Locks only.
-- Of the client, the part of main of client.c which opens the connection and the window, and
-- create_window of gui.c, which builds the widgets, are left out.
pub mod Prelude
pub mod ClientList
pub mod Net
pub mod Server
pub mod Client
pub mod Protocol
pub mod Tests
