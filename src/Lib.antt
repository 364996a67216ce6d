-- ===== src/Lib.antt =====
-- valuestore: a disk-backed key-value store for values of up to a megabyte under 128-bit keys, made to
-- run on the nodes of a ring, and with a twin for groups of values that this library does not model.
--
-- Parts. A caller's Write or Delete (valuestore_GEN_.go) becomes a request to one of several memory
-- writers, by its key. The writer puts the value into a memory block and its place into the location
-- map. A full block goes to the file writer, which puts its values into a value file
-- (valuestorefile_GEN_.go); then a memory clearer moves the block's entries in the location map to the
-- file, sends them to the writer of that file's table of contents and empties the block. Lookups and
-- reads go through the location map to a block or a file. Bulk-set messages bring values from other
-- nodes, and are answered by acks, on which the sender gives up what it is not responsible for. Pull-
-- replication messages ask other nodes for what a Bloom filter of the sender's keys does not have, and
-- are answered with bulk-set messages; push replication sends bulk-set messages of the partitions that
-- the node does not keep. Passes over the key space discard tombstones that are done with, and a
-- watcher switches writes off while a disk or the memory is short. At the start, recovery reads the
-- tables of contents and puts their entries into the location map. Compaction writes what is still
-- needed of a value file anew and removes the file. A configuration settles the sizes that all of them
-- use.
--
-- Files.
--   Base          numbers, tests, lists, bits and bytes; no part of the program
--   Package       package.go: the bits of a timestamp, its bounds, the errors
--   Ring, Reader, LocMap
--                 what the program relies on of github.com/gholt/ring, of io.Reader and of
--                 github.com/gholt/locmap, as records of operations and laws; LocMap.Functions is
--                 an instance
--   Config        valueconfig_GEN_.go: resolveValueStoreConfig, the settings that are whole numbers
--   MemWriter     valuestore_GEN_.go: memWriter; `turn` is a round of its loop
--   MemClearer    valuestore_GEN_.go: memClearer; `clear_turn` is a round of its loop
--   Store         valuestore_GEN_.go: Lookup, Read, Write, Delete, enableWrites, disableWrites, and the
--                 reads of valuememblock_GEN_.go and valuestorefile_GEN_.go
--   StoreFile     valuestorefile_GEN_.go: write, closeWriting
--   Watcher       valuewatcher_GEN_.go: the state machine of watcherLauncher
--   BulkSet, BulkSetAck
--                 valuebulkset_GEN_.go, valuebulksetack_GEN_.go
--   KeyRanges     valuetombstonediscard_GEN_.go: the ranges of the two passes
--   Toc           valuestorefile_GEN_.go: readValueHeader, valueReadTOCEntriesBatched
--   Verify        valuestorefile_GEN_.go: valueChecksumVerify
--   CorruptRange  valuestorefile_GEN_.go: valueInCorruptRange
--   FileWriter    valuestore_GEN_.go: fileWriter; `file_turn` is a round of its loop
--   TocWriter     valuestore_GEN_.go: tocWriter; `toc_turn` is a round of its loop
--   Recovery      valuestore_GEN_.go: recovery
--   Compaction    valuecompaction_GEN_.go: compactFile, and the choice of the files (Choice)
--   Bloom         valuektbloomfilter_GEN_.go
--   PullReplication
--                 valuepullreplication_GEN_.go: the message, its receipt and its answer
--   PushReplication
--                 valuepushreplication_GEN_.go: a worker of pushReplicationPass
--   Flusher       valueflusher_GEN_.go: the rounds of flusherLauncher
-- Each has its theorems in child modules and concrete runs in a child module Tests.
--
-- Correspondence. A goroutine is a function from its state and a message to its next state; a channel is
-- the list of what was sent on it, in order; a counter is kept modulo 2 ^ 32; unsigned numbers are
-- natural numbers with `% 2 ^ w` where the source wraps. A slice out of range and a wait for good are
-- constructors of the results. The values of a block are held by whoever holds the block, as the blocks
-- are handed from one goroutine to the next.
--
-- Fuel. The loops over a message's body, a block's table and a value's bytes take as fuel the number of
-- bytes they run over, and each round takes at least one of them away; the loop of closeWriting takes the
-- checksum interval, and two rounds are enough. The loops over a file take the file's length and one,
-- and each round reads at least 36 bytes.
--
-- Not modelled: Startup and Shutdown; the opening of files and the compaction that end a recovery, and
-- valueTOCStat; the outgoing pass of pull replication; the pass of compaction over the names, audit
-- and statistics; the group store; and, but for the workers of recovery and of needsCompaction, the
-- order in which goroutines that run side by side reach the location map: a theorem on a store speaks
-- of requests one after another.
pub mod Base
pub mod Package
pub mod Ring
pub mod Reader
pub mod BulkSetAck
pub mod Bloom
pub mod BulkSet
pub mod PullReplication
pub mod PushReplication
pub mod LocMap
pub mod MemWriter
pub mod Store
pub mod StoreFile
pub mod FileWriter
pub mod Toc
pub mod TocWriter
pub mod Verify
pub mod Recovery
pub mod Compaction
pub mod Config
pub mod Flusher
pub mod CorruptRange
pub mod Watcher
pub mod MemClearer
pub mod KeyRanges
