-- ===== src/Lib.antt =====
-- The subscriber validation service: a client asks over UDP whether a subscriber may use a technology,
-- and the server checks the packet, acknowledges or rejects it, and answers from its database.
--
-- The program's parts, and the files that model them (paths are from the repository's root):
--   server.c, server.h            Server.antt: `Server` is the struct `server`, and server_init,
--                                 server_run, server_process_packet, server_check_packet,
--                                 server_handle_req, server_send_ack and server_send_reject are functions
--                                 of the same names. `check_fields`, `reply_type`, `accept_packet` and
--                                 `send_packet` are pieces of these, named for the proofs.
--                                 `server_process_packet_printing` is server_process_packet with the
--                                 payload that it prints as a string (Server/Printing.antt).
--   packet.c, packet.h            Packet.antt: `PacketInfo` is packet_info, and flatten and
--                                 interpret_packet have their names. The union `content` is bytes, so
--                                 that reading one member after a write of another gives what C gives.
--                                 Packet/Alerts.antt has alert_reject and alert_reply, Recv.antt try_recv.
--   raw_iterator.c                RawIterator.antt: the cursor that both use, with its `assert`.
--   database.c, database.h        Database.antt: the array of entries, str_to_entry, compare_sub_num,
--                                 parse_database_file and lookup; Database/Dump.antt: dump_database.
--   client.c, client.h            Client.antt: `Client` is the struct `client`, and client_init,
--                                 client_send_packet, client_recv_packet and client_handle_reply have
--                                 their names. `client_loop`, `client_round`, `after_wait` and
--                                 `handle_received` are the loop of client_send_packet and its parts.
--   busywait.c, busywait.h        BusyWait.antt: busy_wait_until, for any function that tries.
--   shell.c, shell.h              Shell.antt: tokenize, loop, and `find_command`, which is `lookup` there.
--   client_commands.c             Commands.antt: parse_ip_args, parse_client_info, send_req, dump_config
--                                 and the command table; `send_to` and `send_parsed` are the end of
--                                 send_req.
--   driver_client.c, driver_server.c, test_parse.c
--                                 Drivers.antt: `client_main`, `server_main` and `test_parse_main`.
--   variadic_macros.h, closure.h  Macros.antt: FOR_EACH and DECL_STRUCT_ARGS on lists of arguments.
--   mpc.c, mpc.h                  SyntaxTree.antt: the syntax tree and its iterator, which
--                                 parse_database_file walks with; SyntaxTree/Build.antt and Query.antt:
--                                 the functions that build, and that compare, search, print and free
--                                 trees, of the same names.
-- server_run receives a datagram into recv_buf; server_check_packet interprets it and compares the length
-- and the sequence number; server_process_packet then sends a REJECT, or an ACK and the reply that
-- server_handle_req finds by lookup in the database. flatten writes what is sent into send_buf. On the
-- other side loop reads lines and calls send_req, which builds a request from its words and hands it to
-- client_send_packet; this waits by busy_wait_until and try_recv for datagrams, and interprets them.
-- Exchange.antt is about both sides together: one exchange, in Exchange/Conversation.antt any number of
-- clients that take turns, and in Exchange/User.antt the shell of one of them; Drivers/Together.antt and
-- Drivers/User.antt are about these from the start of the programs on. There the network is a function
-- from the datagrams that one side sends to the waits of the other.
--
-- Exchange/Protocol.antt is the abstract specification of both programs: a table of the next sequence
-- number of each client, and for each request, by what the network does with it and its answer (`Fate`),
-- whether it is counted and what its user is told (`View`). Exchange/Handled.antt has the server's side
-- of its step, Exchange/Shown.antt and Exchange/Asking.antt the client's; Exchange/Losses.antt is one
-- turn of both, Exchange/Talk.antt any number of turns, with other datagrams to the server and to the
-- clients in between (Exchange/Noise.antt, Exchange/Scraps.antt), and Exchange/Users.antt the shells of
-- their clients. Drivers/Losses.antt and Drivers/Users.antt are about these from the start of the
-- programs on. What the two sides do beyond this protocol is in Exchange/Late.antt and
-- Exchange/Exhausted.antt.
--
-- Helpers: Prelude.antt has lists over the native numbers, Boolean tests and `Outcome`, the result of code
-- that may fail an assertion (`aborted`) or leave a buffer (`fault`). Host.antt has the byte order of the
-- host and htons, ntohs, htonl and ntohl. CString.antt has strtol, strtoul, strtok, strcmp and strstr.
-- SortSearch.antt is the interface of qsort and bsearch: the program is proved against what the C standard
-- promises of them, for a comparison that is an order; SortSearch/Reference.antt is an instance. The files
-- Tests.antt have concrete runs.
--
-- Conventions. A byte is a number below 256, and each conversion to a narrower type is a remainder. What
-- C leaves uninitialised is an argument (`Garbage`, `curr_str`, `CommandEnv`), so a theorem holds
-- whatever is there. What the system calls give is an argument too: the results of socket, bind and
-- getaddrinfo, the list of events that recvfrom comes to, the lines that getline reads, and for each wait
-- of the client the list of its tries, with what recv gives and the time that gettimeofday reads. What is
-- sent or printed is a list of effects, without the diagnostics on stderr, of which only the payload that
-- the server prints is modelled, since its end is looked for in memory, and apart from the rest of the
-- server; the failure of sendto in the server changes nothing but a message. No definition needs fuel:
-- each loop runs over a list, of events, lines, tries or syntax tree nodes, and a loop of the client
-- whose list ends before it does is `waiting`. BUFSIZ is that of glibc, 8192.
--
-- Not modelled: the parser combinators of mpc.c, a copy of the library mpc, whose calls are the parameter
-- `Mpc`: the nodes of a file's syntax tree in the order of the iterator, of which the theorems assume the
-- shape that the grammar in database.c gives them (Database/Trees.antt says it of the tree); generic_array.h
-- and the macros for literals, which only declare; closure.c, a stub outside of both programs.
pub mod BusyWait
pub mod CString
pub mod Client
pub mod Commands
pub mod Database
pub mod Drivers
pub mod Exchange
pub mod Host
pub mod Macros
pub mod Packet
pub mod Prelude
pub mod RawIterator
pub mod Recv
pub mod Server
pub mod Shell
pub mod SortSearch
pub mod SyntaxTree
