-- ===== src/Lib.antt =====
-- The C core of my_skynet, a game server on skynet: native modules that its Lua services load. Each
-- module below is one file of src/ and has a file here of the same theme; no module calls another,
-- and each keeps its own state.
--
-- Prelude: the shared names, tests into Bool, lists over native numbers, bit operations, integers.
--
-- MysqlAux, src/lua-mysqlaux.c: escaping of strings for SQL. num_escape_sql_str counts,
--   escape_sql_str writes, and the two Lua functions allocate and push; they are the definitions of
--   the same names, and what a Lua function pushes or raises is a Pushed. Lengths wrap as unsigned
--   int; theorems that need it ask for a string below 4 GiB.
-- Utf8, src/lua-utf8.c: steps and bytes are _steps and _bytes, encode and decode one code point, and
--   toutf32, toutf8 and utf8_len are the Lua functions. The loops over a string run on fuel, the
--   number of its bytes, since each round leaves one behind. Strings are shorter than 2^31, so that
--   the int index stays exact.
-- MinHeap, src/lua-minheap.c: the heap of timers as an array with its size and capacity. heap_shiftup
--   and heap_shiftdown run on fuel, the index plus one and the size plus one, since each round halves
--   or doubles the hole. What fresh memory holds is a parameter, malloc. MinHeap.Drain has pops until
--   nothing is due.
-- Uniq, src/lua-uniq.c: 64-bit identifiers of three fields. Statics are the static variables, genid
--   one call under the lock, with the clock as an argument; a run is a list of calls, and Uniq.Round
--   one round of the counter. The text of an identifier is uint64_str.
-- TimeCore, src/lua-time.c: days, midnights and week days over integers, with C's division that
--   rounds toward zero. Zone is the static CTX; what localtime_r says of a time is an argument.
-- Ext, src/lua-ext.c: splitting of strings and trimming of names. strstr is written out as the C
--   standard describes it, the loop of split_string runs on fuel, the length, and isspace is a
--   parameter.
-- Counted: what the next two share. Blocks of memory that count the references to them, threads with
--   a slot of their own, and a Protocol: the steps of a thread with the laws that keep the counts
--   right for any number of threads. Reach is the states they get to in any order of their steps;
--   Counted.Schedule runs a list of turns. The counts are natural numbers: an int has room for the
--   number of threads.
-- TextDict, src/lua-textdict.c: the chained hash table of strings. Ctx is dict_ctx, its chains lists
--   of nodes, the hash a 32-bit unsigned over signed chars; load is the loop of lload_dict.
--   TextDict.Share has dictctx_check, dctx_grab, dict_change and dict_release in atomic steps, a
--   Point for each place where a thread can be; TextDict.Instances has dinst_alloc and the functions
--   for Lua of a single thread, with an integer of Lua as its 64 bits, which int_id cuts to an int,
--   and a read before the array as a result; TextDict.Refine says what those promise, an array of
--   tables.
-- Shareval, src/lua-shareval.c: values shared by the threads. Shareval has the switch of lsval_update
--   and that of lsval_query, Shareval.Share sval_check, sval_update and the end of a thread in atomic
--   steps, Shareval.Lua the functions for Lua of a single thread. Ids are from 0 on.
-- Crab, src/lua-crab.c: the filter of forbidden words. Crab has the hash tables, whose nodes are
--   linked by index; Crab.Words the tree of tables that dict_open makes, in a memory by address;
--   Crab.Filter the searches of dict_filter and dict_check. Crab.Chain says how the nodes of a table
--   hang together, Crab.Newkey what table_newkey keeps of that, Crab.View takes a table as a map from
--   code points, and Crab.Tree the memory as a tree of such maps, and says what the two searches are
--   to find in a list of words; Crab.Close is the release of a dictionary, with a call for each table
--   as fuel, since tables are made after those that lead to them. A walk along a chain has the number
--   of nodes as fuel, since it meets no node twice; table_newkey, which calls itself through
--   table_expand, has two calls, since a table of twice the size has room for the old keys and the
--   new one; both are enough, and running out is a result of its own. Texts are shorter than 2^31,
--   and so are the tables.
-- Lru, src/lua-lru.c: ids in two linked lists and a hash table. Addresses index a memory of nodes;
--   every operation is a function on the store, and a list of queries a list of ids.
-- Skiplist, src/skiplist.c and src/lua-skiplist.c: the ordered set of the rankings. Addresses index a
--   memory with the header at 0; the comparisons of scores are parameters, and so is what random()
--   gives. Skiplist has the nodes and the changes of links, Skiplist.Chain the nodes on a level,
--   Skiplist.Query the functions sl..., Skiplist.Lua those of the binding. A walk along a level has
--   the memory's size as fuel, since it meets no node twice; lists are shorter than 2^32. Its tests
--   run it.
--
-- Not modelled: the registration of the modules and the argument checks by the Lua library, the
-- release of memory at exit (dl_release), the release of what was made of a list of words that is
-- refused, the creation of keys for thread-specific slots, mkdir of src/lua-ext.c, the other C files
-- (src/lua-trace.c, src/lua-memhelp.c, src/service_logger.c), the C++ files, the copy of
-- LuaFileSystem under 3rd, and the game logic in Lua.
pub mod Prelude
pub mod MysqlAux
pub mod Utf8
pub mod MinHeap
pub mod Uniq
pub mod TimeCore
pub mod Crab
pub mod Ext
pub mod TextDict
pub mod Lru
pub mod Skiplist
pub mod Counted
pub mod Shareval
