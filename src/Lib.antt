-- ===== src/Lib.antt =====
-- modern-go: a toolkit of containers, cryptographic helpers and goroutine-local storage for Go.
--
-- The parts, and the files that model them:
-- * crypto/dh64/dh64.go, Diffie-Hellman in 64-bit words, is Dh64: `mul_mod_p`, `pow_mod_p`,
--   `powmodp`, `public_key`, `secret` and `key_pair` are the functions of those names. A uint64 is
--   a number below 2^64 and what can wrap is reduced. The two words that `KeyPair` draws are
--   arguments. `pow_mod_p` counts its nested calls: 64 are enough, since each halves a 64-bit word.
-- * container/templates/cmap/cmap_template.go, the sharded map, with the hashes of
--   container/cmap/hashkey.go, is Cmap: a map is the list of its shards' maps, over any type of
--   keys with a hash, and each method is a function of its name. The files container/cmap/gen_*.go
--   are this template at other types. Base/Dict has Go's built-in maps; the order of a loop over
--   one is an argument, of which only that it visits every entry once is used. Cmap/Interleaved has
--   GetAll, Keys and Count with calls of other goroutines between the reads of two shards.
-- * container/carray/carray_normal_any.go, the array, is Carray, with Carray/Many for the methods
--   that take or give several items and Carray/Scan for those that walk over them. An int that may
--   be negative is a ℤ of Base/Int; a call that can panic is an Outcome of Base/Outcome. Draws of
--   math/rand and the result of `rand.Perm` are arguments. `Reverse` and `Unique` have as many
--   rounds as there are items, which is more than they use. Carray/Memory has PushRight, PopLefts and
--   PopRights on the memory that an array shares with the slices it has handed out, and
--   `remove_value_among` of Carray/Scan is RemoveValue with another goroutine between its two locks.
-- * container/queue/queue.go and container/stack/stack.go are Queue and Stack, over Linked, which
--   is container/list of the standard library as far as they use it.
-- * crypto/aes.go is Aes, with the functions' names. The block cipher and the base64 coding are
--   arguments; CBC mode is written out.
-- * gls, the goroutine-local storage: Gls is gls/gls_slot.go, Gls/Methods gls/gls.go, Gls/Value
--   gls/value.go and Gls/Lifecycle gls/lifecycle.go. The state is the slots and a heap of the
--   goroutines' data; the runtime, AtExit functions and Close methods are arguments, which may
--   change any state. `registerFinalizer` calls itself once for each exchange of labels that
--   failed, and the failures are the list of what others put there.
-- * internal/rwmutex/rwmutex.go, the mutex with a switch, is Rwmutex; the goroutines that use it
--   are a relation of steps.
-- * crypto/key.go and crypto/rand.go are Keys, and crypto/passport.go is Passport. Draws, scrypt
--   and the random reader are arguments.
-- * gls/g/reflect.go is Reflect, over tables of types. `search_loop` counts its rounds; the
--   length of the table is enough, since each shortens the span.
-- * crypto/gob.go and crypto/md5.go are Gob, with the functions' names. MD5, AES in GCM mode, gob and
--   base64 are arguments.
-- * gls/hook/goexit.go, the exit hook before Go 1.17, is Hook, as far as it searches and changes a
--   stack, which is a list of bytes; the loop counts down the words of the stack.
-- * container/syncmap/len.go is Syncmap.
-- * container/skiplist/skiplist.go is Skiplist, with the node heap and the walk along the levels,
--   Skiplist/Update with Set, Del and insert, and Skiplist/Query with the readers. A level's loop
--   has as many rounds as there are nodes, the header included. Skiplist/Cells is the shape of the
--   heap, with the spans as distances, Skiplist/Ordered the sorted entries it stands for, and
--   Skiplist/Modelled the two together; the proofs on Set and Del stand below Skiplist/Update, those
--   on the readers below Skiplist/Query. Keys and scores have strict orders, so that a score is not
--   NaN, and 0 and -0 are one score.
--
-- Not modelled: memory shared between slices, beyond Carray/Memory, and locks. Every method is
-- modelled as one step, but for those of Cmap/Interleaved, RemoveValue and the life of a goroutine; a
-- method on a single key holds the lock of its shard from its first read to its last write, so that
-- calls of several goroutines on single keys take effect one after another. The offsets into the
-- runtime's structures (gls/goid.go, gls/g/g.go), the patching of its code (gls/hook/symtab.go), casts
-- without a copy (internal/bytesconv) and the digest of crypto/sum32.go, which only calls the standard
-- library, are left out.
mod Base
pub mod Dh64
pub mod Cmap
pub mod Carray
pub mod Linked
pub mod Queue
pub mod Stack
pub mod Aes
pub mod Gls
pub mod Rwmutex
pub mod Keys
pub mod Passport
pub mod Reflect
pub mod Skiplist
pub mod Gob
pub mod Hook
pub mod Syncmap
