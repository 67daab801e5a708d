-- ===== src/Lib.antt =====
-- public-cpp: the containers and helpers of xforce's public C++ library, as functions on their
-- state.
--
-- The parts. A hash map (src/close_hashmap.hpp), a binary heap (src/heap.hpp), a pool of objects
-- (src/pool_objs/pool_objs.hpp) and a pointer that deletes its former objects late
-- (src/delay_del_ptr.hpp) are containers that other parts of the library use. The heap orders the
-- timeouts of src/events_driver.hpp, and the pool serves src/thread_private_pool.hpp. Besides there
-- are helpers for strings (src/str_helper.hpp), for JSON (src/jsontype), for messages between
-- threads (src/mpsc_fixed_pipe), for sockets (src/io_helper.h), for the storage of threads
-- (src/thread_privacy/thread_privacy.h) and for arrays of arrays (src/multi_array_helper.hpp).
--
-- Files. Each part is one file with its state as a record and one function per operation, and child
-- modules with what is proved of them.
--   CloseHashmap: CloseHashmap of src/close_hashmap.hpp; init, insert, upsert, erase, get and resize
--     are Init, Insert, Upsert, Erase, Get and Resize. CloseHashmap.Iterator has the iterator, and
--     CloseHashmap.Copy has Copy.
--   Heap: HeapBase of src/heap.hpp; insert, update_item, update_top, refresh, refresh_top, pop, erase,
--     top and clear are its methods, and adjust_node, resize and init_heap are AdjustNode_, Resize_ and
--     Init_. A sign is the number of a node.
--   PoolObjs: PoolObjsBase of src/pool_objs/pool_objs.hpp; get, free, num_objs_left, mem_cost,
--     init_pool and alloc_a_block are its methods. Objects are numbers.
--   DelayDelPtr: DelayDelPtr of src/delay_del_ptr.hpp; change, get and destroy are Change, Get and the
--     destructor.
--   StrHelper: SplitStr of src/str_helper.hpp; scan and split_loop are its inner and its outer loop.
--   IoHelper: IOHelper of src/io_helper.h and src/details/io_helper.cpp; write_non_block and
--     read_non_block are WriteNonBlock and ReadNonBlock, over a parameter for write and read.
--     IoHelper.Sockets has CreateSocket, Listen and Accept, over a record of system calls, and
--     IoHelper.Ip has IpToInt.
--   ThreadPrivacy: ThreadPrivacy of src/thread_privacy; peek and get are Get without and with a type,
--     get_code is Get_, and init_store and destroy are Init_ and the destructor. A thread is a number.
--   EventsDriver: EventsDriver of src/events_driver.hpp behind its initialisation; reg_event,
--     reg_event_del and clear_all are RegEvent, RegEventDel and ClearAll. Its timeouts are a Heap.
--   Json: the values of src/jsontype/jsontype.h. Json.Read has the parser of details/jsontype.cpp beside
--     it, whose functions have the names of JsonParseUtil, and Json.Dump has DumpJson.
--     Json.Access has the comparisons, Size, operator[] and CreateConf.
--   JsonRefs: the cells that JsonType objects share; assign_naive, assign, reset and normalize are the
--     assignment of a plain value, operator=, Reset_ and Normalize_.
--   Pipe: MPSCFixedPipe of src/mpsc_fixed_pipe/mpsc_fixed_pipe.hpp; reserve_space_for_send, just_send_msg,
--     send_msg_once, send_msg, has_todo, receive_msg and msg_consumed are ReserveSpaceForSend_,
--     JustSendMsg_, SendMsg_, SendMsg, HasTodoMPSCFixedPipeMsg_, ReceiveMsg_ and MsgConsumed. Pipe.Wait
--     has ReceiveMsg, which waits. Pipe.Queue says when a pipe holds a queue of messages.
--   MultiArray: the loops of src/multi_array_helper.hpp; set_dim2, set_dim3, copy_dim2 and copy_dim3 are
--     SetDim2, SetDim3, CopyDim2 and CopyDim3.
--   Base: names of the library, Boolean tests, and lists as arrays, that the others share.
--
-- State. A method is a function from the state to its result and the new state. `XFC_RAII_INIT` is
-- the function ensure, which the first call on an object runs. A null pointer is none. In the hash
-- map the result none of an operation stands for a read through a null pointer.
--
-- Bounds and fuel. A loop recurs on the number of its rounds: the probes of the hash map on the
-- rounds that the source counts, the loops of the heap on the index and on the number of items,
-- which are enough because the index at least halves or doubles in each round, and the loop that
-- starts a pool on one more than the largest number of blocks, because each round adds a block.
-- SplitStr and the loops over read and write recur on one more than the number of bytes, because
-- each round but the last moves on by a byte. The loop of Accept recurs on any number of rounds, as
-- it waits for the system. The fuel of the JSON parser bounds both the nesting and the rounds of
-- each loop; it is one more than the number of characters. The loops of the pipe, which wait for
-- other threads, take any number of rounds. The loop that locks in ThreadPrivacy has its million
-- rounds.
--
-- Left out. Allocations succeed. A size of the hash map stays below 2^52, where the product with 1.5
-- is exact in a double, and a heap stays small enough that its size in bytes fits in an int.
-- Uninitialised fields hold some value. Calls run one at a time, and a sender of the pipe may have
-- read its state before other calls; a lock is a field with the result of Lock. The elapsed time of
-- a DelayDelPtr is the difference of times that are not negative. A pool has at least one object per
-- block. Lengths of buffers fit in an int. Destructors that only free memory, printing of containers, the waiting
-- of the event loop and its timeouts, and what a shared JSON value frees with its cell are not
-- modelled.
pub mod Base
pub mod CloseHashmap
pub mod DelayDelPtr
pub mod EventsDriver
pub mod Heap
pub mod IoHelper
pub mod Json
pub mod JsonRefs
pub mod MultiArray
pub mod Pipe
pub mod PoolObjs
pub mod StrHelper
pub mod ThreadPrivacy
