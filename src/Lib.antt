-- ===== src/Lib.antt =====
-- A model of the programs of this repository, network programming assignments in C, and of what
-- makes them correct. Each program is a subtree of its own; they share no code.
--
-- The programs, and where their parts are modelled:
--   assignment-2/q2/prefork_server.c, a server that keeps a pool of idle worker processes:
--     Prefork: the worker list, its counters, spawning (fork's pids are given as a stream), and
--       handle_control_msg with both messages; a null dereference is an outcome.
--     Prefork/Protocol: start_worker as a step relation. A worker sends GOT_REQUEST and
--       COMPLETED_REQUEST to the parent and waits for READ_ALLOWED; parent and workers take
--       steps in any order, and what was sent and not yet received is part of the state.
--     Prefork/Table, Counters, Control, Effects, Spawn and Protocol/*: their proofs.
--   assignment-2/q1, round trip times of many hosts over ICMP:
--     Rtt/Queue: queue.c. Rtt/HashMap: hash_map.c, from address texts to hosts.
--     Rtt/Checksum and Rtt/Time: in_cksum and tv_sub of utils.c.
--     Rtt/Proto: struct proto, procV4, procV6, and what the receivers of rtt.c do next.
--     Rtt/Setup: parseIpList of utils.c and the set-up of the hosts in main of rtt.c; Setup/Adding:
--       its proofs. Rtt/Receive: a round of the receivers of rtt.c and the losses that printRtts
--       counts; Receive/Rounds: its proofs. Rtt/Threads: the sender and the two receivers over
--       what they share, in steps; Threads/Counting, Waiting, Started, Rejoining: their proofs.
--     Rtt/Send: the sending loop of sendV4 and sendV6. Rtt/Turn: one turn of sendHelper.
--   assignment-2/q3, group chat over multicast:
--     Group/Strtok, Command, Parse, Print: parseCommand and printCommand of utils.c, with what
--       they use of strtok and atoi. Group/Fits, Arguments, Roundtrip: their proofs.
--     Group/Groups: the linked list of joined groups, initMulticastGroup, joining and leaving,
--       create-group of main, getMaxFd. Group/Members, Leaving, Creation: their proofs.
--     Group/Poll: voting in main and the counting of handlePollCommand.
--     Group/Find: findGroupRecv, handleFindGroupReq, handleFindGroupCmd.
--     Group/Files: requests for files, the passing on of file lists in main, sigAlrmHandler.
--       Group/Passing and Requests: their proofs. Group/Transfer: the chunks of a file.
--     Group/Receiving: getFileList and the child of requestFileCmdHandler; Receiving/Rounds: its
--       proofs.
--     Group/Program: the commands of main and their composition; Program/Turns: a round of the loop
--       around select, requestFileReqHandler and cleanup. Program/Listed, Kept, Sending, Rounds,
--       Voting: their proofs.
--   assignment-1/q1, a shell:
--     Shell/HashMap: hash_map.c, from indices to stored pipes. HashMap/Refinement, Histories:
--       its proofs.
--     Shell/Command: parseCmd of shell.c and stringToNum of utils.c. Command/Words, Spelling,
--       Items, Bounds: their proofs.
--     Shell/Pipe: createCmdPipe on |, ||, ||| and &. Pipe/Shape: its proofs.
--     Shell/Execute: where the commands of executeCmdPipe read and write. Execute/Sinks, Worlds,
--       Stages, Passing, Composition: its proofs.
--     Shell/Descriptors: the ends of pipes that executeCmdPipe leaves open. Descriptors/Closing:
--       its proofs.
--     Shell/Session: shortcut commands, and a round of driver.c. Session/Shortcuts, Recall: their
--       proofs.
--   assignment-1/q2, a shell for a cluster of machines:
--     Cluster: the configuration file and registerClientConnection. Cluster/Command:
--       createCommandPipe. Cluster/Run: a command line on the machines. Cluster/Connection:
--       connectionHandler. Cluster/Registering, Composition: their proofs. Cluster/Client: the
--       child of clustershell_client.c on the requests of the server. Cluster/Prompt: its parent
--       and connectionHandler over the bytes between them. Client/Requests, Prompt/InStep,
--       Completing: their proofs.
--   assignment-1/q3, a server of messages to clients and groups, and its client:
--     Mail: the tables of clients and groups, registering, creating, joining, group messages.
--     Mail/Control: handle_control_msgs. Mail/Queries: handle_queries and the queries of
--       client.c. Mail/Messages: messages from a sender through the server to a reader.
--       Mail/Calls: joining and creating by name. Mail/Program: the arguments of client.c.
--       Mail/Membership, Identifiers, Registering, Handling, Queries/Answers,
--       Messages/Delivery, Messages/Reading: their proofs.
--   Base: what the models share. Tests, lists and options over the native numbers, C's int as ℤ
--     (its overflow is not reached by the counters), C strings as lists of bytes without the
--     null, and chains of keys and values.
--
-- How the code is read: a pointer into a list is the place or the identifier of what it points
-- to; NULL is `none`. Memory, sockets and other system calls are arguments that say what they
-- answered. A write outside an array, a null dereference and a use after free are outcomes of
-- their own, never assumed away. A loop is recursion over the list it walks, or recursion on
-- fuel: the sending loop needs one round per byte, the draining of a queue one per element and
-- one more, the spawning loop enough for its doubling, createCmdPipe more than the length of its
-- text, a reader one more than the messages of its queue; the theorems give these bounds. The
-- commands of a shell's pipe run one after the other, as its `wait` makes them, and a pipe holds
-- 65536 bytes; what a program, or a machine, answers is a function of its input. The indices of
-- shortcuts are read into C's int, whose overflow is an outcome.
--
-- Not modelled: socket set-up, select, signals, threads and forks as such (system calls),
-- printing, reading of the terminal, runs of the three threads of rtt.c in which a receiver acts
-- within a turn of the sender, runs of the preforked server after a failed fork, and the look-up
-- of host names, which only passes on what a socket gives. On the cluster shell's connections a
-- read gives all that has come, up to its size.
pub mod Base
pub mod Cluster
pub mod Group
pub mod Mail
pub mod Prefork
pub mod Rtt
pub mod Shell
