-- ===== src/Lib.antt =====
-- garnet_rust: a Redis-compatible server in Rust.
--
-- The development follows the crates of the repository:
--
--   PagedList   wedb_list/src/page.rs and wedb_list/src/list.rs, the list object. A page is a sequence
--               of at most 64 elements (`Page`); the object (`Object`) is a directory of pages and a
--               count. `Access` holds index normalisation, the search for the page of an index
--               (`locate`), LINDEX, LSET and `remove_at`; `Range` the iterator `Slices` and LRANGE;
--               `Trim` LTRIM; `Insert` LINSERT with the split of a full page; `Moves` LPUSH, RPUSH,
--               LPOP, RPOP, the iterator `Drain`, LMOVE, rotation and `transfer_to`; `Lrem`
--               LREM, with the bit mask of a page and `reclaim`; `Lpos` LPOS; `Serial` the
--               binary storage format.
--               The abstract view is the list of the elements, `to_list`; the invariant `IsValid` says
--               that no page is empty or over its capacity and that `len` counts the elements.
--   Backlog     wedb_repl/src/backlog.rs, the ring of the latest bytes of the replication stream. The
--               abstract view is the history (`contents`), the oldest byte first.
--   Repl        wedb_repl/src: `Role` is role.rs; `History` is history.rs, the identities of replication
--               streams and their binary form; `Sync` is the PSYNC decision and the sessions of sync.rs;
--               `Manager` is manager.rs, over the other three and the backlog. `Reach` says which states
--               its methods reach, `SafePoint` up to where the log may be cut.
--   Cluster     wedb_cluster/src: `Slot` is slot.rs, the bitmap of slots and the slot of a key; `Config` is
--               config.rs with the records of worker.rs and node.rs, `Workers` its merging of what
--               gossip tells of other nodes, `Routing` migration.rs, `SetSlot` the part of manager.rs
--               that sets a slot to migrate or to be imported. `MergeSlots` is about the merging of
--               what other nodes claim, `RemoveLaws` about CLUSTER FORGET.
--   Txn         wedb_txn/src: `Entries` is key_entry.rs, the lock set of a transaction and its merging
--               sort; `Versions` is version_map.rs, the table of versions that all sessions share;
--               `Watched` is watched_keys.rs, the keys that a session watches; `Manager` and `Exec` are
--               manager.rs with state.rs and error.rs, the transaction of a session. The
--               manager calls the other three: WATCH reads the table, queueing fills the lock set, EXEC validates the watched
--               keys against the table and raises the versions of the keys it has written. What other
--               sessions do between two calls is a list of steps on the table (`Bump`, `run`);
--               `Reached` is the states that the methods of a session reach, `Covered` what holds of
--               the queued commands in them.
--   LenEnc      wedb_resp/src/len_enc.rs, the encoding of lengths.
--   Glob        wedb_pubsub/src/glob.rs, the glob matcher of patterns of channels; `Tokens` says what
--               the places of a pattern stand for, apart from the matcher, and `Relation` what it means
--               that a pattern matches.
--
-- The hash function (`fast_hash` of the crate whasher) is an argument. The properties of commands
-- (wedb_txn/src/queued_cmd.rs) are a record that the manager takes, `CommandTable`. The concurrent map
-- of the replicas' sessions, an external crate, is a record too, `SessionMap`; what is relied on of it is
-- `IsMap`. `memchr` and the printing of numbers, external crates too, are arguments. Random bytes, the time and what a file holds are arguments.
--
-- A method that changes `self` is a function to the new state; an `Option` or `Result` is a value; a
-- panic is `none`. `Common` holds sequences measured by native numbers with their laws, Boolean tests,
-- integers and results.
--
-- Loops are structural recursion over the pages, save `collect_with`, which reads an iterator to its
-- end and takes one call more than elements remain, so that the last call gives nothing,
-- `doubled`, which doubles from 1 up to a number at most that number of times, and the
-- loops of the glob matcher: `members`, whose rounds take a byte of the pattern each, so the length of
-- the set is enough, and `match_loop`, whose fuel `(length key + 1) * (length pattern + 1)` is enough by
-- the result of `Glob.Decides` below.
--
-- Not modelled: capacity hints and memory accounting (`with_capacity`, `shrink_to_fit`, `byte_size`),
-- the bitcode codec, an external crate, and everything that the manifest lists as such. `usize` and
-- `u64` counters of elements and bytes are unbounded numbers, save in `wrapping_sub`, where the
-- wrap-around at 2 ^ 64 is written out, and in the versions of the watch table, which count modulo
-- 2 ^ 64; the number of its slots wraps around there too, as in a build without overflow checks, so that
-- a capacity above 2 ^ 63 gives no slots. The cast of a length to `i64` in wedb_resp/src/len_enc.rs is
-- written out.
pub mod Common
pub mod PagedList
pub mod Backlog
pub mod Txn
pub mod LenEnc
pub mod Repl
pub mod Cluster
pub mod Glob
