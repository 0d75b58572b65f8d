-- ===== src/Lib.antt =====
-- SOSAgent (OriginalAgentCodeC): an agent that takes over a host's TCP stream, splits it into numbered
-- frames over several parallel connections to another agent, and puts it together again there.
--
-- How the parts interact. `poll_data_transfer` (poll.c) waits for events. Input from the host goes to
-- `read_host_send_agent` (network.c), which sends one frame on a connection that can be written;
-- `all_agents_socks_full` and `not_all_agent_socks_full` (poll.c) stop and start that input. Input from
-- a connection goes to `read_agent_send_host` (network.c), which puts a packet together in a slot of
-- the connection. The packet that is next goes to the host by `send_data_host` (network.c), with all
-- that follow it in the table; any other is put into the table.
--
-- What models what:
--   Base, Base/Tests, Base/Lists    shared names, Boolean tests, lists measured by native numbers
--   System                          errno, the answers of the system calls, the poll sets, and the
--                                   machine as a parameter (`Env`): kernel, malloc and the hash table
--   System/Outcome                  a run of C code: a value, `exit`, a fault (an access out of
--                                   bounds), or a loop that used up its fuel; `Ensures` leaves only the
--                                   first two
--   System/Calls, Laws, Rules       the calls and the record of them; what the code relies on; how a
--                                   run goes on after a call
--   Wire, Wire/Words, Wire/Frames   the frame: length word in network order, sequence number as it is
--                                   stored, payload
--   Client, Client/Access, Slots    client_t and what hangs on it (datatypes.h); arrays indexed by the
--                                   number of a connection are one list of `Lane`s
--   System/Ends                     how a run ends where undefined behaviour is not ruled out
--   System/Partial                  what holds of a run if it comes back or exits, for invariants
--   Deliver and below               `send_data_host`: `Order` says what the host is to receive, `Steps`,
--                                   `Packet` and `Drain` prove it for a step, a packet and the loop;
--                                   `Short` is about a packet without a whole sequence number, `Prompt`
--                                   about a machine that takes whatever is sent
--   Receive, Receive/Queue          `read_agent_send_host`, and the search for a free slot in it
--   Receive/Gather, Dropped         what its reading loops keep, and how a connection is given up
--   Receive/Payload, Header         the two loops
--   Receive/Tcp                     what the code relies on of a parallel connection
--   Receive/Whole, Begun, Entry,    from the stream on the connection to the packet's place: its
--   Progress                        payload, its length word, the points of entry, the whole function
--   Receive/Resting, Arrival        the packet that has arrived: sent or filed
--   Send and below                  `read_host_send_agent`: `Layout` the buffer, `Flight` the send loop,
--                                   `Frames` the whole function
--   Watch and below                 `all_agents_socks_full`, `not_all_agent_socks_full`
--   Transfer, Transfer/Setup        `poll_data_transfer`, `configure_stats`, `configure_poll`
--   Transfer/Finished               when a transfer is over
--   Transfer/Freed                  an event with EPOLLERR alone: `free_client`, `clean_up_connections`
--   Transfer/Queues, Prepared       new queues of slots, and the state in which a transfer begins
--   Whole and below                 the handlers together: `Aside` what the direction to the connections
--                                   leaves alone, `Watching`, `Sending` its handlers;
--                                   `Served` and `Serving` what `send_data_host` leaves alone;
--                                   `Delivering` how far the host has been sent the stream, `Turns` and
--                                   `Reached` the turns of `poll_data_transfer` without input of a
--                                   connection
--   Whole/Registered, Mirror and    what is registered in the poll set and what the marks of the sockets say,
--   below                           in every handler, `configure_poll` and the loop
--   Agent                           the controller's requests and a client that is being connected
--   Agent/Handshake                 `send_uuid`, `get_uuid` (network.c)
--   Agent/Requests, Agent/Found     `check_for_transfer_request` (controller.c)
--   Agent/Connected                 `handle_host_connected`, `agent_connected_event` and
--                                   `close_all_data_sockets` (network.c), the time limit of `poll_loop`
--   Agent/Net                       agent_t (datatypes.h), and the rest of the machine as a parameter
--                                   (`Net`): sockets, clock, ids, `fork`, texts, tables keyed by an id
--   Agent/Rules                     how code on a client goes on
--   Agent/Accept, Opened, Welcomed  `init_new_client`, `accept_host_side`, `accept_agent_side`,
--                                   `connect_host_side`, `connect_agent_side` (network.c)
--   Agent/Confirm                   `get_uuid_and_confirm_client` (network.c)
--   Agent/Messages, Taken           `get_controller_message` (controller.c)
--   Agent/Start                     `init_agent` and what it calls (network.c, controller.c,
--                                   discovery.c), `send_discovery_message` (discovery.c)
--   Agent/Options                   `get_arguments` (arguments.c)
--   Agent/Child                     the child process that carries out a transfer (poll.c, network.c)
--   Agent/Loop                      `poll_loop` (poll.c), `main` (agent.c)
--   Agent/Pooled                    `find_empty_agent_sock` (network.c)
--   Examples and below              a concrete machine and runs on it
--
-- Conventions. `int` and `uint32_t` counters wrap at 2 ^ 32, `size_t` at 2 ^ 64. EMPTY is `none`. A
-- file descriptor is a number. The record of calls, newest first, is the log from which the stream that
-- a socket was sent is read. `struct epoll_event` and `event_info_t` are kept only as far as the code
-- reads them again: the event mask, and the number of the connection.
--
-- Fuel. The outer loop of `send_data_host` gets one more than the number of slots, since each round
-- frees one; each loop that sends gets one more than the number of bytes, since each round sends one at
-- least. `read_agent_send_host` has five rounds for a header and one more than the size for a payload.
-- The results say that a run ends, so the fuel is enough where they speak of it. The loops of
-- `get_uuid` and `send_uuid` have fuel as an argument, since they try again at EAGAIN without bound.
--
-- Not modelled: the kernel, libc, uthash and malloc (parameters with laws), the reports (`getinfo` and
-- the print functions, which only write), failing `epoll_create` in `configure_poll`, `waitpid`, the
-- Java port. HASH_FIND_INT and the walk by `hh.next` over the requests are taken as uthash documents
-- them: in the order in which they were added.
-- `any_in_use` takes a place behind a connection's queue as a slot that is not in use. The types
-- "CLIENT" and "AGENT" are told apart by a parameter (`kind_of`), and `sscanf` is taken to fill all
-- fields. The -1 that a failed `accept` writes into the pool before the exit is left out.
pub mod Base
pub mod Wire
pub mod System
pub mod Client
pub mod Deliver
pub mod Receive
pub mod Send
pub mod Watch
pub mod Transfer
pub mod Agent
pub mod Whole
pub mod Examples
