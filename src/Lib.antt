-- ===== src/Lib.antt =====
-- Verification of the homework programs of this repository: small C programs, each in a folder of
-- its own. A child module holds the tests and the theorems at concrete inputs.
--
-- Prelude holds the shared names, tests, lists measured by native numbers, signed integers,
-- arrays of which the first entries are in use, and memory. Libc models the functions of the C
-- library that the programs call on text: comparison, prefixes, cutting at a byte, %d printed and
-- scanned, tokens, and the words and lines that scanf and fgets read.
--
-- Taxi is 22_fork_poll/main.c: a supervisor and the driver processes that it forks.
-- Taxi/Registry.antt has the globals drivers and driver_count with the descriptors of the
-- process, create_driver, find_driver_by_pid, cleanup_driver and cleanup; Taxi/Driver.antt has
-- driver_process, one round of its loop at a time; Taxi/Supervisor.antt has
-- send_command_to_driver, send_task, get_status, get_drivers and the loop of main. The clock,
-- pipe, fork, poll, read, write and waitpid are arguments: each round or exchange gets what they
-- answer. Output to stderr is left out. The status fields that the supervisor keeps of a driver
-- are never read by the code and stay as create_driver sets them.
--
-- RawSockets is 21_raw_sockets: RawSockets/Checksum.antt has ip_checksum, RawSockets/Clients.antt
-- the table of clients of server.c, RawSockets/Packet.antt the packet layout and
-- create_reply_packet, RawSockets/Server.antt the loop of the server's main,
-- RawSockets/Client.antt sender_thread and receiver_thread of client.c. A buffer is the byte at
-- each index, and a received packet lies over what the buffer held before. The loop that folds
-- the carries of the checksum has three rounds of fuel, which are enough for any 32-bit sum.
--
-- ThreadQueue is 16_sockets/part2/consumer_producer: ThreadQueue/Queue.antt has queue.c on a heap
-- that gives the node at each address, ThreadQueue/Server.antt the accept loop of server.c and
-- its worker threads as a step relation, in which the bodies of enqueue and dequeue (under the
-- mutex), sem_wait, sem_post, accept and close are single steps, and lists record what happened
-- to each descriptor. In signal_handler each sem_post is a step, between which the other threads
-- go on, until cleanup_queue has the mutex; a signal that interrupts the thread that holds it is
-- a case of its own. malloc answers with an address that is not in use, or NULL. The loop of
-- cleanup_queue has 20 rounds of fuel, the capacity of the queue.
--
-- SharedChat is 14_shared_memory/chat: SharedChat/Data.antt has chat.h, SharedChat/Server.antt
-- the messages that main of server.c handles, SharedChat/Client.antt one round of the inner loop
-- of receiver_thread of client.c, redraw_chat and sender_thread. SharedChat/Spec.antt describes
-- the chat without arrays. A char array is the text up to its NUL. SharedChat/System.antt lets
-- the server and the client take turns: a message is handled, and a round of the client is made,
-- without interruption.
--
-- Subscribers is 06_dynamic_memory (04_structures has the same sources): Subscribers/Linked.antt
-- has list.c on a heap that gives the node at each address, with loops on fuel of which one round
-- for each node is proved enough, Subscribers/Menu.antt what a round of the loop of main.c reads
-- and does, with the answer of malloc as an argument. Subscribers/Cells.antt describes a
-- well-formed list in the memory, Subscribers/Order.antt the sorted list without pointers. The
-- constant menu and prompts are left out of the output. Each round adds at most one node, so that
-- the number of rounds is fuel enough.
--
-- FileManager is 09_vfs/mc: FileManager/Panel.antt has mc.c (load_dir, change_dir, draw_panel),
-- FileManager/Keys.antt the keys of main.c. What opendir, readdir and stat answer for a path is
-- an argument, which may change from key to key; qsort by strcmp is insertion sort. Texts have
-- any length there: the blocks of the entries and what sprintf writes behind them are counted
-- beside it (FileManager/Blocks.antt), and that a path fits into PATH_MAX bytes is a condition of
-- what FileManager/Safety.antt proves.
--
-- MqueueChat is 13_mqueue/chat: MqueueChat/Wire.antt has the messages that client.c and server.c
-- print and parse, with the NULL pointers of strtok_r as failure, and MqueueChat/Server.antt the
-- requests that main of server.c handles, with the sent messages as a list; MqueueChat/Room.antt
-- has the server together with the queues of its users, request by request: a queue goes by the
-- pid in its name, a descriptor leads to the queue that had the name when it was opened, joining
-- opens a queue that is there with what lies in it, and leaving takes its name away.
-- MqueueChat/Screen.antt and MqueueChat/Client.antt have what receiver_thread of client.c shows
-- of a message. The bytes of a message behind its NUL are not modelled.
--
-- Shop is 11_threads/p5.c, with the thread that takes the mutex next as an argument of each turn,
-- and Substring is 03_pointers/p4.c, in which a pointer into a string is the text from it on.
--
-- Arrays is 02_arrays, without reading and printing, and Calculator is 07_static_libs, whose
-- sources 08_dynamic_libs repeats.
--
-- Bits is 01_bitwise_operations and 03_pointers/p1.c, on the 32-bit pattern of an int;
-- Bits/Masks.antt has the laws of & and | that it needs, digit by digit.
--
-- Pipeline is 12_channels/p3.c: the commands and arguments of a line, at most 10 and 32, and the
-- descriptors of each command.
--
-- Shell is 10_processes/p3.c: Shell/Round.antt has a round of its loop, with the text that is
-- left in the buffer; the command that a round runs stands for fork, execvp and waitpid.
--
-- Counter is 11_threads/p3.c and p4.c: Counter/Threads.antt has the steps of the five threads,
-- with shared_counter++ as a load and a store.
--
-- ThreadPool is 16_sockets/part2/pthread_pool_server: ThreadPool/Server.antt has the loop of main
-- and the threads that it makes as a step relation, in which a round of the scan over the pool,
-- pthread_create, the mark behind it, a thread up to its close and its loop over the pool are
-- single steps. A pthread_t is not used again, since no thread is joined.
--
-- RawUdp is 16_sockets/part4_raw: RawUdp/Programs.antt has the packets that the three clients
-- build, with the layout of RawSockets/Packet.antt, their loops over the packets that come, the
-- rounds of the server, and what raw_sniffer_udp.c prints. What an array holds before it is
-- written is an argument, and so is the kernel's delivery of a datagram: IsUdp says that it goes
-- by the length field.
--
-- KernelModules is 20_kernel_module: KernelModules/Handlers.antt has the handlers of
-- proc/proc_module.c (dev/dev_module.c has the same ones) and of sys/proc_module.c over the
-- string of the module. simple_read_from_buffer and simple_write_to_buffer are arguments, and
-- IsDocumented says what the theorem relies on.
--
-- Not modelled: the programs that only pass one message or the time between two processes or
-- print (pointers, file copies, pipes, posix and sysv queues and memory, the socket pairs of
-- 16_sockets, the time servers other than the pool), signals, whose effects are those of the
-- system, and gets over the stack (05_functions). The windows of the chats and of the file
-- manager are modelled up to the text that they get.
--
-- Numbers: int is an integer without bound where the code only stores, prints or compares it, and
-- wraps where the code computes with it at the edge (the pid and the timer that %d of sscanf
-- reads in main of 22_fork_poll, the timeout of a driver, 16-bit lengths). Counters of messages
-- are not bounded by INT_MAX.
pub mod Arrays
pub mod Bits
pub mod Calculator
pub mod Counter
pub mod FileManager
pub mod KernelModules
pub mod Libc
pub mod MqueueChat
pub mod Pipeline
pub mod Prelude
pub mod RawSockets
pub mod RawUdp
pub mod SharedChat
pub mod Shell
pub mod Shop
pub mod Subscribers
pub mod Substring
pub mod Taxi
pub mod ThreadPool
pub mod ThreadQueue
