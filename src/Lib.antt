-- ===== src/Lib.antt =====
-- The user-mode mailbox stack between the main domain and the real-time subsystem (RTSS).
--
-- A mailbox is a region of shared memory with a header and up to 253 sub-regions. A sub-region is
-- a ring of items of one size, with one sender and one receiver: the sender moves the write index,
-- the receiver the read index. The mailbox library (middleware/safemlib) reads and writes this
-- region. The API (middleware/mailbox) opens a channel, which is a sub-region found by its name,
-- and sends and receives on it; it asks the kernel driver to raise and to wait for interrupts.
-- The update library (apps/rtss-updater/lib/rtss_update) exchanges messages with the RTSS over two
-- channels and shares a buffer for images; the GPT library (apps/rtss-updater/lib/rtss_gpt) finds
-- partitions on the flash of the RTSS. The updater (apps/rtss-updater/demo) sends the RTSS commands
-- through these libraries, one after the other in the sequences of an update, takes its responses,
-- reads a configuration file and judges what the RTSS reports.
--
-- Files, and the code that they are about:
--   Base        shared names: lists, tests, the widths of C integers, int32_t as an integer
--   Memory      middleware/safemlib/src/rtss_mailbox_lib.c: get_reg, set_reg, libmbcopy_bytes over
--               a memory that gives a byte at each address; Memory/Copy is about the copy routine
--   Mailbox     the same file and its header. Mailbox/Layout has the structures, by the addresses
--               of their fields. Mailbox/Ring has LibMB_Valid_Item, LibMB_Free_Item,
--               LibMB_Write_Item, LibMB_Read_Item and the sanity check; its children give the ring
--               its abstract view, a queue of items (Contents), and follow the loops of the writer
--               (Put, Write, Append) and of the reader (Get, Read, Remove). Mailbox/Access has the
--               functions that a client calls, and in Fifo runs of them. Mailbox/Create has the
--               layout, its check and the initialisation of a mailbox; its children are about the
--               check (Boundary), an accepted configuration (Config), a round of the initialisation
--               (Region), its loop (Rounds), the mailbox that it leaves (Opens) and calls on two of
--               its sub-regions (Use, over Mailbox/Access/Fifo/Turns)
--   Api         middleware/mailbox/src/rtss_mailbox.c. Api/Handle has the handle and the acts on
--               the kernel and the heap, Api/Open has rtss_mb_open, Api/Transfer sending and
--               receiving, Api/Control the rest
--   Gpt         apps/rtss-updater/lib/rtss_gpt/src/rtss_guidpt.c
--   Update      apps/rtss-updater/lib/rtss_update/src/rtss_update_lib.c: the checksum, the
--               sharing of the OTA buffer, the messages and their checksum, and the handshake
--               (Update/Handshake: rtss_upd_hello_ping as a state machine over its two labels;
--               Hello is about the message that it sends)
--   Updater     apps/rtss-updater/demo/src/rtss_updater_cmd.c and rtss_updater.c. Updater/Command,
--               Gpt, Image and Metadata have the commands, Updater/Request all of them in one type,
--               Updater/Buffers the buffers, Updater/Entries the entries that the RTSS leaves there,
--               Updater/Load a file that is loaded, Updater/Config the configuration file,
--               Updater/Boot the judgement of the boot information, Updater/Response
--               rtss_updater_cbk_notify_handler and, in Carried, the structures of the responses
--               in rtss_update_lib.h, Updater/Options the command line,
--               Updater/Context mem_init and mem_deinit. Updater/Session has what the sequences are
--               made of, a command and its response, Updater/Session/Trace the plans and the logs in
--               order with them, and Updater/Session/Steps the steps that follow a plan; Updater/Sequence has the sequences before and after the
--               reboot and of the flasher, Updater/GptUpdate that of a new table, Updater/Main main
-- A module named Tests has concrete runs.
--
-- How state is modelled: memory is passed along explicitly, and an address that is NULL is 0. A
-- function that calls the kernel takes what the kernel answers as an argument and gives the list
-- of its acts. Static variables are a record.
-- The sequences of the updater are do blocks of a monad: a step takes and gives the state of the run
-- and may leave the sequence, or wait for a response for ever. The state has a log of what has been
-- done; for a response it also tells what could be read, of which the handler itself returns nothing. What the RTSS does to memory between a command and its response is a parameter of the run. uint32_t arithmetic is written out modulo 2 ^ 32;
-- an int32_t is an integer.
--
-- What the code relies on and is not part of it is a parameter: the answers of open, ioctl, mmap,
-- eventfd and poll, the constants of the kernel header rtss_mailbox_uapi.h, the read callback of
-- the GPT library. Barriers have no effect on a memory that one thread sees.
--
-- Bounds and fuel: the loop of LibMB_Init_Mailbox reads its bound from the memory it writes to, so
-- it runs on fuel, 254 rounds, one more than the largest number of sub-regions that the check
-- before it accepts. The other loops are structural: on the number of words, items, bytes or
-- entries that the code counts. The waiting loop of rtss_mb_read_timed takes one answer of poll in
-- each round, from a list of them. The loop of rtss_upd_hello_ping runs on fuel, 96 steps; its
-- counters of errors and of good responses allow 95. In each step it takes what the kernel answers
-- to the send and the returns of poll to the read.
--
-- Not modelled: logging; rtss-dbg, rtss-mbdemo and rtss-console, which parse commands and print; of
-- the updater the timers and the file that they are written to, what it prints, and its signal
-- handler, which releases the buffer and exits.
pub mod Base
pub mod Memory
pub mod Mailbox
pub mod Api
pub mod Gpt
pub mod Update
pub mod Updater
