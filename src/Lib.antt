-- ===== src/Lib.antt =====
-- A model of the C code of the segment routing controller and of the library that it is built on.
--
-- The library, sdnres-src/lib, has the containers and helpers: array lists, hash tables, linked
-- lists, a ring buffer between threads, text helpers, a trie of prefixes, an event loop, and the
-- clients of the database and of DNS. The controller, sdnres-src/sr-ctrl, reads rules from a
-- file, keeps the network as a graph, and answers the requests that the database announces with
-- paths of segments: worker threads take requests out of a ring buffer, look up the rules that
-- match, and find their flows in a hash table.
--
-- Common is what the modules share: Boolean tests, lists over native numbers, masks of powers of
-- two, and `Outcome`, the result of C code: a value, or a fault such as an access out of bounds, a
-- read of indeterminate memory, a null pointer that is followed, or a failed assertion. The fault
-- `out_of_fuel` stands in `hmap_grow`, whose loop does not end for a size of 2 ^ 32 or more; in the
-- two flush loops, `alist_flush` and `hmap_flush`, which get one round more than the container has
-- elements, as each round takes out one element; in the main loop of `graph_dijkstra`, which gets
-- one turn more than the graph has nodes, as each turn takes a node out of the queue; and in
-- `__compute_paths`, which may go one call deeper than the graph has nodes, as a chain of
-- predecessors has each node at most once; and in `generate_unique_bsid`, whose attempts are
-- counted, as only chance ends its loop.
--
-- ArrayList is sdnres-src/lib/arraylist.c and arraylist.h. An element is a value of any type; a
-- slot that was never written is `none`; `unsigned int` arithmetic wraps at 2 ^ 32. What `malloc`
-- and `realloc` answer is an argument. `alist_new` is `new`, `alist_insert_at` is `insert_at`, and
-- so on; the start and the rest of `alist_insert_at` are `grow` and `place`. Slots and Holds say
-- when an array list holds a sequence; Insert, Remove and Copies are the operations.
--
-- HashMap is sdnres-src/lib/hashmap.c and hashmap.h. The entries lie in a heap, since the chain of
-- a bucket and the list of keys both link them; the intrusive lists are lists of addresses.
-- `KeyOps` is the pair of function pointers and `IsKey` what the table asks of them; Keys has the
-- five pairs of the program (misc.h, hashmap.h, sr-ctrl/graph.h, sr-ctrl/graph.c) and their laws.
-- Cells is the abstract view, a sequence of entries; Models relates the two; Edits, Writes and
-- Deletes are the operations.
--
-- Sbuf is sdnres-src/lib/sbuf.c and sbuf.h: `State` is the buffer with the values of its
-- semaphores, its mutex, and where each of any number of threads stands in `sbuf_push`,
-- `sbuf_trypush`, `sbuf_pop` or `sbuf_trypop` (`Pc`). A call of a semaphore or of the mutex, and
-- each of the two accesses to the buffer under the mutex, is one step; a schedule is any list of
-- turns. `sem_init` has the greatest value INT_MAX, which is SEM_VALUE_MAX on Linux. Ring is the
-- window of slots between the two counters, Inv the invariant, Steps one turn, Runs a whole
-- schedule, Mutex what the semaphores and the mutex give.
--
-- Misc is sdnres-src/lib/misc.c: `strip_crlf`, `remove_trail`, `strsplit` and `strreplace` on byte
-- lists. Rules is sdnres-src/sr-ctrl/rules.c and rules.h: `parse_rule` with its loop
-- `parse_words` (`flag` and `argument` are the branches), `load_rules` with its loop `load_from`,
-- and `match_rules`. A file is the list of lines that `fgets` returns. Word has the keywords.
--
-- Graph is the part of sdnres-src/sr-ctrl/graph.c and graph.h that works on the nodes and edges
-- alone: `graph_add_node`, `graph_add_edge`, `graph_remove_edge`, `graph_remove_node`,
-- `graph_get_node_noref`, `graph_get_edge_noref`, `graph_get_minimal_edge`,
-- `graph_compute_neighbors` and `graph_prune`. A pointer is an address, with the fields that do
-- not change beside it. Tables is `graph_compute_minimal_edges` and `graph_compute_all_neighbors`,
-- on tables that are what a hash table holds: keys and values, compared with the functions of
-- HashMap.Keys. Minimal, Neighbors, Changes and Pruning are about the operations that their names
-- say, Lookups and Adjacent about what a look-up in the two tables finds. Segments is
-- `compare_segments` and `nodes_to_edges`, Copies is `graph_clone` and `graph_deepcopy`.
--
-- Graph.Dijkstra is `graph_dijkstra` with `__compute_paths`: `Search` is its three tables and its
-- queue, `select` finds the next node, `visit` is a turn of the main loop and `relax` its loop over
-- the neighbours; the callbacks of `struct d_ops` are a record of functions. Queue is about the
-- queue, Inv is the invariant, Relax, Turns and Visit show that it is kept, Correct, Tidy and
-- Shortest draw the conclusions for tables and for graphs; Plain and Total are about any callbacks;
-- Chains and Paths are about `__compute_paths` and the paths that it leaves. Graph.Minseg is
-- `graph_minseg` with the cache of shortest paths: `choose` has the tests of a turn. Pinned and
-- Ways say what the segments are to do, Cached is about the cache, Total about any path and about
-- `build_segpath`. Of the cache, the answer of `malloc` for each result is an argument; the
-- allocations inside `graph_dijkstra`, whose answers it does not look at, succeed. Graph.Segpath is
-- `build_segpath`, with the callback that prunes as an argument.
--
-- Lpm is sdnres-src/lib/lpm.c and lpm.h: a tree of nodes with two children, without the pointers to
-- parents; a virtual node has no payload. Below says when a tree is well formed. Longest is about
-- `lpm_lookup`; Updated, Parting and Insert about `lpm_insert`, Roundtrip about the one after the
-- other; Deleted, Optimize and Delete about `lpm_delete` with `optimize_virtual`.
--
-- Controller is sdnres-src/sr-ctrl/sr-ctrl.c and sr-ctrl.h. `State` is `struct netstate` with the
-- table of flows; a link lies at its pointer, which edges have as their data, and a router in the
-- table of routers. Netstate is `nodestate_read`, `linkstate_read`, `linkstate_update`,
-- `linkstate_delete` and `netstate_graph_sync`; Paths the callbacks of `build_segpath`; Requests
-- is `process_request` with `select_providers` and `generate_unique_bsid`; Flows is `gc_flows`
-- and `recompute_flows`, Providers the line of providers of `load_config`. Each is one step: the
-- locks are held from one end to the other, but for `netstate_graph_sync`, which gives the lock
-- of the staging graph back in between. Events has them as turns of the threads, one behind the
-- other. Staged, Linked and Growth are about the handlers, Synced about the published graph,
-- Bindings, Pruned, Decision and Decided about requests, Collected and Renewed about the flows,
-- Runs about any sequence of turns. `inet_pton`, random bytes, the time, and what memory and the
-- database answer are arguments. Times are microseconds; `getmsdiff` wraps as in misc.h.
--
-- Not modelled: the freeing of memory, and in Misc, Rules, Lpm and most of Graph the failure of
-- allocations; messages on the error stream; the intrusive linked lists at pointer level; of the
-- graph its counts of references and its lock; of the controller the other lines of
-- `load_config`, the rows that it writes to the database, and what may come between the locks of
-- a handler; the database client (sdnres-src/lib/srdb.c); the DNS server and the event loop,
-- which are mostly calls of c-ares, epoll and libredblack.
pub mod Common
pub mod ArrayList
pub mod HashMap
pub mod Sbuf
pub mod Misc
pub mod Rules
pub mod Graph
pub mod Lpm
pub mod Controller
