-- ===== src/Lib.antt =====
-- yat (Yet Another Toolkit) is a C++ class library: tasks with message queues, buffers, strings,
-- files, sockets and time. This library models parts of it as functions on explicit state
-- and proves what they promise.
--
-- MessageQ models yat::MessageQ (src/threading/MessageQ.cpp, include/yat/threading/MessageQ.h and
-- MessageQ.i), the bounded priority queue between the threads that post to a task and the task. The
-- record MessageQ has the fields of the class; a message is its identity, type, priority and size.
-- A critical section, from the lock to the unlock or to the wait on a condition, is one function:
-- post and post_resume (MessageQ/Post), next_message and next_resume (MessageQ/Next), clear,
-- clear_pending_messages, close and destroy (MessageQ/Clear), the setters (MessageQ/Marks). A
-- function says whether it notified the producers or the consumers and which messages it released.
-- MessageQ/Schedule runs any sequence of such sections of several threads. Its child modules are
-- named for what they prove. Marks and charges are compared as the source compares them, and the
-- difference of the marks, the charge and the counters wrap round at 2 ^ 64, as `size_t` does; the
-- theorems about the charge suppose messages that weigh less than that together.
--
-- MemBuf models yat::MemBuf (src/memory/MemBuf.cpp, include/yat/memory/MemBuf.h), the byte buffer
-- that grows. A block is a list of cells, an access outside it is `none`, and the lengths wrap round
-- at 2 ^ 32. Contents of at most 4293918719 bytes leave room for the margin of one megabyte that
-- realloc_with_margin adds. MemBuf/Words has the stream operators, for both byte orders. A buffer
-- owns its list: that two buffers share a block (give_ownership, attach) and that an allocation
-- fails are not modelled, and neither are the operators for floating-point values. MemBuf/Copy and
-- MemBuf/Compare have the copies of a buffer and operator==.
--
-- Crc models crc_32_tab, crc and MemBuf::get_crc (src/memory/MemBuf.cpp) over the buffer of MemBuf;
-- Crc/Xor has the laws of exclusive or, and Crc/Bits the checksum as a division.
--
-- Time models calc_julian_date, JJToDate, nb_days_in_month, nb_days_in_year and the day fields of
-- Time::get (src/time/Time.cpp) on the years from 0 on. The clock, the formats, the time zones and
-- the time of day are not modelled.
--
-- Text models the static functions of StringUtil on std::string (src/utils/String.cpp) that take a
-- text apart and put it together: extract_token with its escape character, split and join;
-- remove_item (Text/Items); the trims (Text/Trim) and match with its jokers, without the tokens
-- that it may collect (Text/Match). A text is a list of bytes shorter than 2 ^ 31, as the source
-- keeps positions in an int, and those that match takes have no byte 0. A read before the beginning
-- of a text is an answer of its own, reads_outside. The loops that are not recursions over the text
-- have the length of the text as fuel, and match that of the mask, which is enough for each of
-- them. Text/Maps has the maps with texts as keys, as functions: their order is not modelled.
--
-- Config models yat::CfgFile (src/file/FileName.cpp, include/yat/file/FileName.h): load_from_string with
-- its loop over the lines, whose fuel is the length of the text (Config), and the queries
-- (Config/Queries). An answer none of load_from_string is a read outside a text. Config/Entries says
-- what a line may be and what it means; Config/Lines, Config/Choice, Config/Marks and Config/Turns
-- lead from the tests of the loop to it.
--
-- FileName models the queries of yat::FileName (the same files) for the parts of a full name, as built
-- for POSIX systems. What asks the system, as set_full_name does, is not modelled.
--
-- CommandLine models yat::CommandLine (src/utils/CommandLine.cpp, include/yat/utils/CommandLine.h):
-- the definitions of options and arguments, read and the queries. CommandLine/Items says what the
-- words of a command line may be. What read prints is not modelled.
--
-- Uri models yat::URI (src/utils/URI.cpp, include/yat/utils/URI.h): percent encoding (Uri), the parts
-- with set, get and parse (Uri/Parts). The regular expressions are matched by the class Regex, a
-- wrapper of a library; a function from a pattern and a text to the groups of a match stands for it.
--
-- Task models yat::Task (src/threading/Task.cpp): run_undetached as a step for each answer of the
-- queue (Task), go, go_asynchronously, wait_msg_handled and exit, with Thread::spawn and Thread::join
-- (src/threading/PosixThreadingImpl.cpp), as functions of what the calls in them answer
-- (Task/Control), and the counts of SharedObject (src/threading/SharedObject.cpp), by which messages
-- are kept (Task/Refs). The handler of a derived class is a parameter. Task/Loop describes the
-- messages that a task is to handle.
--
-- Tokenizer models yat::StringTokenizer (src/utils/StringTokenizer.cpp). Its loops have fuel; an
-- answer of count_tokens is an option, with none for fuel that was used up, and the length of the text
-- and one more is enough where the delimiter is not empty.
--
-- Barrier models yat::Barrier (src/threading/Barrier.cpp) and the threads at one, by a relation of
-- steps. The condition wakes all threads by the broadcast, a thread at the end of its time, and any
-- thread at any time for no reason, as POSIX allows.
--
-- Sync models yat::SyncAccess (src/threading/SyncAccess.cpp), the locks on one address, by a relation
-- of steps: lock_obj under the lock of the map, the lock of the object's own mutex, the entry of the
-- owner, and unlock_obj. Other addresses have other entries and mutexes. The counts are words of 32
-- bits, and fewer than 2 ^ 32 locks are held or asked for at a time.
--
-- Common has what these share: Boolean tests, lists and words of fixed width.
--
-- Not modelled either are next_message_ex, whose periods are floating-point numbers, the branch of
-- insert_i that runs out of memory, and what only prints. The parts of yat that are wrappers of the
-- operating system or copies of other projects are left out, and so are the files themselves, the
-- templates, the replacements of StringUtil and the containers.
pub mod Common
pub mod MessageQ
pub mod MemBuf
pub mod Crc
pub mod Time
pub mod Text
pub mod Uri
pub mod Task
pub mod Tokenizer
pub mod Barrier
pub mod CommandLine
pub mod Config
pub mod FileName
pub mod Sync
