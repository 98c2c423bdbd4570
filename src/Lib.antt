-- ===== src/Lib.antt =====
-- thin-provisioning-tools reads, checks, repairs, packs and restores the metadata of the thin, cache and
-- era targets of the device mapper. This library models the parts of it that compute: the packed form
-- of metadata, the batching of block reads and writes, checksums, the in-core space maps, the building
-- of btrees and their key ranges, the comparison of thin devices, and the layouts of the superblocks.
-- thin_metadata_pack sends the nodes of a device through the packing machine; thin_delta compares the
-- mappings of two devices; the tools that restore or merge metadata build btrees, whose nodes the write
-- batcher sums and queues; the checkers and the repair tools count blocks in the space maps, split key
-- ranges on their way down the btrees, and plan their reads with the gap detection.
--
-- Files, with the source that each one models:
--   Prelude           shared names, list lemmas, results, bit operations as arithmetic
--   Bytes             the little-endian readers and writers of the crates byteorder and nom, as the
--                     interface `ByteOrder` with an instance, and u64 arithmetic of Rust;
--                     Bytes/Parse has the chains of nom parsers
--   Pack/DeltaList    src/pack/delta_list.rs: to_delta, and from_delta of its tests
--   Pack/Tag, Encode  src/pack/vm.rs: the tags and the writers pack_delta, pack_u64s,
--                     pack_shifted_u64s, pack_literal
--   Pack/Machine      src/pack/vm.rs: VM with unpack_instr and exec, and unpack
--   Pack/RoundTrip    the writers and the machine together; Pack/Encode/Format and
--                     Pack/Machine/Runs have the wire format in between
--   IoEngine/Gaps     src/io_engine/gaps.rs: find_runs, batch_adjacent, split_batches,
--                     generate_runs, count_gaps
--   Pdata/SpaceMap    src/pdata/space_map/base.rs: Core is CoreSpaceMap, Restricted is
--                     RestrictedSpaceMap, RestrictedTwo is RestrictedTwoSpaceMap; BitSet is the
--                     interface of the crate fixedbitset
--   Checksum          src/checksum.rs, with the crate crc32c as a parameter
--   WriteBatcher      src/write_batcher.rs, over the interface `Backend` of the I/O engine, the space
--                     map's alloc and the crate rangemap; Engine has the laws of `IoEngine` of
--                     src/io_engine/base.rs, View is what a reader sees
--   Pdata/BTreeBuilder  src/pdata/btree_builder.rs: NodeBuilder and build_btree, with node I/O, space
--                     map and reference counter as the interface `NodeStore`; its laws are in Store
--   Thin/Delta        src/thin/delta.rs and src/thin/delta_visitor.rs: the recorded mappings of a
--                     device, dump_delta_mappings, and the simple report in Report
--   Pdata/KeyRange    src/pdata/btree_error.rs: KeyRange::split, split_key_ranges
--   Pdata/SpaceMap/Common   src/pdata/space_map/common.rs: IndexEntry and SMRoot
--   Thin, Era, Cache  src/thin/superblock.rs, src/era/superblock.rs, src/cache/superblock.rs: unpack,
--                     pack_superblock; src/thin/block_time.rs, src/thin/device_detail.rs and
--                     src/cache/mapping.rs: the values of their trees
--   Shrink            src/shrink/toplevel.rs: build_remaps
--   Tests             the theorems at concrete inputs
--
-- A method with `&mut self` takes the state and returns it with its result; an error or a panic of the
-- source is an `err`, and of the builder and the visitors of deltas, which end at the first error, the
-- state after it is left out. A writer is a function that appends to a byte list. Numbers are natural
-- numbers; where the source wraps (the deltas, the masks and shifts of the packer) the remainder by
-- 2 ^ 64 is written out, and block numbers and lengths are taken to stay below 2 ^ 64. The entries of
-- CoreSpaceMap have their type as a greatest value.
--
-- Fuel: the loop of the packing machine takes the length of its input as fuel, one unit for each
-- instruction, since every instruction is a byte at least. split_contiguous takes one round for each
-- operation and each block, and build_remaps one for each range and each free chunk. A round of
-- split_contiguous ends an operation or a batch, which is never empty where the maximum is above zero;
-- a round of build_remaps ends a range or a chunk. dump_delta_mappings takes one round for each mapping
-- and each block; build_btree one for each leaf, since a level has at most half as many nodes as the one
-- below where a node takes four entries or more.
--
-- Not modelled: devices, threads and buffers (src/io_engine but gaps.rs), the walks over btrees and arrays,
-- the codec of btree nodes, space maps on disk, the commands, XML and reports, the copier. The trait
-- methods that only return a field are read as the field. NoopSpaceMap has no state to speak of. The
-- flush in the write batcher's destructor is left out.
pub mod Prelude
pub mod Bytes
pub mod Checksum
pub mod WriteBatcher
pub mod Pack
pub mod IoEngine
pub mod Pdata
pub mod Thin
pub mod Era
pub mod Cache
pub mod Shrink
pub mod Tests
