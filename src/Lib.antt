-- ===== src/Lib.antt =====
-- iotop-cpp, a monitor of the disk I/O of processes and threads: its own code, from the utilities up
-- to the main function.
--
-- The program's parts, and how they meet. `main` (src/main.cpp) makes an `IoRunner` (src/iotop.cpp),
-- whose loop has `IoMonitor` collect the figures of all tasks, has `ViewCurses` show them, and sleeps.
-- `IoMonitor` (src/collect/io_monitor.cpp) lists the tasks by `Util` (src/common/util.cpp), asks
-- `NetlinkIoStats` (src/collect/netlink.cpp) for the counters of each one, works out rates, and keeps a
-- table of tasks (src/common/common.h). `ViewCurses` (src/view/view.cpp) prints that table.
--
--   Base      what the other modules share: tests, lists and signed numbers over the native ℕ
--   Text      byte strings, and what is used of the C library on them
--   Run       programs that call the environment: a run ends with a result and the trace of its calls,
--             in undefined behaviour (`fault`), or with its rounds used up (`spin`); Run/Within says
--             what a program does to its trace, as a relation, and Run/Calls which calls it makes
--   Os        the answers of the environment, as functions of the trace; constants of its headers
--   Abi       the macros and the layouts of the kernel's headers for netlink, with the laws of them
--             that the code relies on (`IsLinux`)
--   Float     `double`, with the operations that the program uses
--   Prio      src/common/util.cpp, the I/O priorities
--   Proc      src/common/util.cpp, /proc, users and the clock; Proc/Descriptors keeps the books of the
--             descriptors and streams that a trace has open
--   Task      src/common/common.h, and the operations of the table
--   Netlink   src/collect/netlink.h and src/collect/netlink.cpp; Netlink/Attributes says what a
--             sequence of attributes means, apart from the loops that read it; Netlink/Readable
--             says how the loops over a reply end, by the layout of its bytes, and Netlink/Returning,
--             Netlink/Endless and Netlink/Overreads that they do; Netlink/Connection has the start
--   Monitor   src/collect/io_monitor.h and src/collect/io_monitor.cpp, over the interface `Sources`;
--             Monitor/Reference has the loops as a pass over the tasks, Monitor/Abstract the
--             collection on a map, without the order of the table, Monitor/Observed what a collection
--             found, and Monitor/Asking what it asks of netlink
--   View      src/view/view.cpp
--   Runner    src/iotop.h, src/iotop.cpp and src/main.cpp, where the parts meet; Runner/History has
--             the rounds of the loop as a relation between runners and traces, and Runner/Presence
--             which tasks they show, Runner/Streams what they send and Runner/Clock the time
--             between them
--   Tests     runs on concrete inputs
--
-- Definitions keep the names of the functions they model; a member function takes the object first and
-- gives it back where it changes it. An `int` is a ℤ, an unsigned number a ℕ with its wrap-around
-- written out, a std::string or a char array the list of its bytes. std::unordered_map is an
-- association list, in some order. The loops over directory entries and tasks are recursions on lists;
-- a directory has its entries when it is opened, and each call of `readdir` is in the trace.
-- Three loops take a number of rounds: that of `send_netlink_cmd`, where b + 1 for each byte to send,
-- and b more, are enough if no more than b calls in a row take none; and the two over the attributes of
-- a reply. Of these the outer one is given one more than the length of the payload, and the inner one
-- three more than the length of the buffer, which is enough on any bytes: where these run out, any
-- number does. Where the socket never takes a byte and asks to try again, or the loops come to an
-- attribute of length 0, the source goes on for ever, and the model spins. `run` has no end: the model
-- has its first n rounds.
--
-- Not modelled: messages to std::cerr; allocation; what the environment does with its calls;
-- src/config, which is commented out; src/cxxcurses, a copy of a library by another author.
pub mod Base
pub mod Text
pub mod Run
pub mod Os
pub mod Abi
pub mod Float
pub mod Prio
pub mod Proc
pub mod Task
pub mod Netlink
pub mod Monitor
pub mod View
pub mod Runner
pub mod Tests
