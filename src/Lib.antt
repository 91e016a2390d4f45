-- ===== src/Lib.antt =====
-- Verification of bons-ci: which layer of a container image owns a file, which files differ between two
-- trees of directories, when the hash of a file may be reused, and what a graph
-- of build steps marshals to.
--
-- Dirsync models internal/dirsync. Dirsync.Walker is walker.go: `walkBoth` with `emitExclusive`,
-- `emitAllExclusive` and `handleCommonEntry` (walk_both, emit_exclusive, emit_all, handle_common_entry),
-- over a tree that gives the listing of each relative directory and callbacks that act on a state of any
-- type. Dirsync.Filter is filter.go with the pattern engine as a parameter, Dirsync.Pruning and
-- Dirsync.Paths are pruning_set.go, and Dirsync.Types is types.go. The walk runs on fuel, one unit for
-- each level of directories of the lower tree, which is the depth of its calls. Dirsync.Handlers is
-- handler.go and actions.go, handlers as functions on a state; Dirsync.Batcher is batcher.go,
-- batcher_goroutine.go and merged_view.go, where a schedule gives the operations that the
-- goroutines of a batch execute, in the order in which they do, and Dirsync.Batcher.Slots has the
-- goroutines of `executeBatch` as a step relation. Dirsync.Hasher is hasher.go:
-- a file is the bytes that can be read and what the reads meet after them; `os.Open` and `os.Readlink` are
-- parameters. The sequential rounds have a unit of fuel more than the lower file has bytes, and a segment one
-- more than its length. The cancellation of segments is any function of the segment and the place.
--
-- Layermerkle models pkg/layermerkle. Layer is the registry of layer.go, Ring the ring cache of
-- ringcache.go, Resolver the search of resolver.go over any cache that meets the interface StatCache,
-- which Resolver.MapCache fills with the map of resolver.go and with the ring, and Whiteout is whiteout.go.
-- `os.Lstat` is a parameter. A panic of an index out of range is `none`. HashCache is cache.go: the
-- interface of hash caches with the laws that its users rely on, the sharded cache that fills it
-- (HashCache.Lru) and the cache with a time to live over any other (TTLHashCache). Trie is
-- internal/trie/trie.go, Merkle is merkle.go, whose builder puts results into the trie and hashes it from
-- the leaves up, and Diff is diff.go over the forests of such trees.
--
-- Fshash models pkg/fshash. Layer.Chain, Layer.Store and Layer.Resolver are chain.go, store.go and
-- resolver.go of pkg/fshash/layer, with the loop over the directories above a path in Layer.Ancestors,
-- on fuel of the length of the path; Layer.Visibility is pkg/fshash/overlay/visibility.go; Overlay is
-- parser.go and interpreter.go beside it. Cache.Shard and Cache.Sharded are pkg/fshash/cache/store.go,
-- Access.Bloom, Access.Tracker and Access.Dedup are filter.go, tracker.go and dedup.go of
-- pkg/fshash/access, and Merkle.Tree and Merkle.Proof are pkg/fshash/merkle, with the hash function as
-- a parameter and fuel of the number of leaves. An event goes from the deduplicator to the resolver, then
-- to the filter, then to the cache. Processor is processor.go, which keeps the chain of each layer, turns
-- an event into mutations, hands modifications to the deduplicator and builds the tree of a layer.
--
-- Layermerkle.Dedup is deduplicator.go over any hash cache, with the search of the owner and the hasher as
-- parameters, and the vertex processor that puts its answers into the builders of Merkle.
--
-- Llb models client/llb. Llb.Graph is visitor.go: vertices are numbers, a graph gives the inputs of each, and
-- a visitor acts on a state of any type; the walk runs on fuel, a unit for each level, and more than one above
-- the rank of the root is enough where ranks fall along the inputs. Llb.Marshal is the marshalling of state.go,
-- marshal.go, output.go and strategy.go, a walk that emits each vertex, and Llb.Matrix the cells of
-- ops/matrixop/matrixop.go.
--
-- Executors.Pool is pkg/executors/network/cniprovider/pool.go, the pool of network namespaces: a function for
-- each method, up to the end of its lock, and in Executors.Pool.Steps a step relation on the pool and the places
-- where a namespace can be, in which callers, the filler, the cleanup and the closing interleave.
--
-- Content is core/content/store/composite: Content.Fanout and Content.Split turn stores into a store, over the
-- record of operations Store and the laws IsLawful of a store without faults, which a fan-out meets again.
--
-- Base holds what the parts share: Go strings as lists of bytes, maps as association lists, slices as
-- lists, sort.Slice by a string, paths as lists of segments, and the binary digits of words. Methods that
-- hold a mutex throughout are one step. Counters are natural numbers without a bound; the hashes of 32 and
-- of 64 bits wrap.
--
-- Not modelled: goroutines and channels but for those of `executeBatch`, the segments of the hasher and the
-- pool of namespaces, the file system, hash algorithms, sizes found by floating point, hooks, and the rest of
-- the packages that adapt containerd, BuildKit and runc. The linked list of a cache shard is a list in the order of use.
pub mod Base
pub mod Dirsync
pub mod Layermerkle
pub mod Fshash
pub mod Llb
pub mod Executors
pub mod Content
