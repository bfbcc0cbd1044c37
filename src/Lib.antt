-- ===== src/Lib.antt =====
-- A key-value store with a hash-index engine and an LSM engine, and its TCP server.
--
-- A client's command goes through the wire protocol (src/bffp.rs) and the connection
-- (src/server/connection.rs) to its handler (src/server/dispatch.rs), which calls an engine
-- (src/engine.rs) and counts in the statistics (src/stats.rs). The LSM engine logs a write as a
-- record (src/record.rs, with the checksum of src/crc.rs) in its write-ahead log (src/wal.rs),
-- keeps it in the memtable (src/memtable.rs) and later writes the memtable to tables
-- (src/sstable.rs) of blocks (src/block.rs), which the LZ77 coder (src/lz77.rs) compresses; a Bloom
-- filter (src/bloom.rs) tells which keys a table may hold. The hash engine appends records to
-- segment files and finds them by an index (src/hash_index.rs), which hint files (src/hint.rs)
-- save; the name of a segment file holds its timestamp (src/segment.rs).
--
-- Prelude: shared names, tests, lists and bits. Io: results, readers, big-endian words, UTF-8, the
-- text of numbers. BTreeMap, HashMap: the maps of the standard library. Utils, Crc, Record,
-- Memtable, Wal, Lz77, Block, Bloom, Hint, HashIndex, SsTable, Segment, StorageStrategy, Leveled,
-- SizeTiered: the files of these names; Lsm: src/lsmengine.rs. In SsTable, `from_memtable` is a
-- loop over the state Building and `SSTableIter::next` is `next`; `get` is in Get, `rebuild_index`
-- and `get_sstables` are in Rebuild, names in FileName. Tables has what the strategies do alike
-- with lists of tables. In Leveled, the merging of tables stands in the file itself and
-- `compact_levels` with the trait in Compact. In Lsm, `lookup` and the state stand in the file
-- itself, the trait's calls in Ops, `list_keys` and `range` in Scans; View has the contract that
-- the engine wants of its strategy, which Leveled/Contract fills. KvEngine: src/kvengine.rs, with
-- the lookups and appends in the file itself, the trait's calls in Ops, `from_dir` in Opening and
-- `compact` in Compact. Settings: src/settings.rs, with `get_from_args` in Args. Bffp: Command and
-- OpCode with their sizes in Command, `decode_input_frame` in Decode, `encode_command` in Encode,
-- responses in Response. Connection: `FrameParser` and `on_readable` in Parser, `on_writable` and
-- the write buffer in Writer. Server: the counters in Stats, the trait of the engines in Engine,
-- `dispatch` in Dispatch. Examples: runs at concrete inputs.
--
-- Bytes are numbers and a `String` is the list of its bytes. A file or socket that is read is the
-- list of the bytes left, a file that is written the list of its bytes. An `io::Result` is
-- `Result`, which has a panic as a third outcome. `as u16` and `as u32` are written as remainders;
-- `usize` is taken to be of 64 bits. The hash tables of the coder are functions of the index. Reads
-- and writes of a socket are the list of what the calls return; a directory is the list of the
-- names in it. The engine, the text of its errors and the test of the compaction ratio are
-- parameters of the handler, and the `f64` of SizeTiered is an interface; a compaction thread is
-- counted from its start to its end. The clock's readings are arguments; in one lookup of the LSM
-- engine the clock is read once for all tables. A table carries its file, and its path is the
-- file's name, since the directory is fixed. The locks of the engines are left out: a call is one
-- step, and the thread of a flush takes its two steps, writing the table and dropping the memtable,
-- at any point between calls; `join` has it take those left. In the engine and its strategies an
-- error ends the run, and the state behind it is not described. The hash engine's segment files are
-- found by their timestamps, since the database's name is fixed; while it compacts no other call
-- runs. The new engine of a compaction works in the same directory, so that it may take the name of
-- a file that is there; the removal of the old files takes away their names, and the active file is
-- kept open without one if its name was among them. The parsers of addresses and of `f32` are
-- parameters of Settings.
--
-- Loops that are not structural run on fuel: the LZ77 encoder on the length of the data, since each
-- round takes a byte; the decoder, the replay of a log and the item loops of a frame on the number
-- of bytes left, for the same reason; the parser of a connection on twice the length of its buffer
-- and two, since a frame takes four bytes and two rounds; `next` of a table on the length of its
-- file, since a header takes nine bytes; the iteration over a table on the length of its file times
-- 4 GiB, since a block takes a byte of the file and its size has 32 bits; `rebuild_index` on the
-- bytes of the file and of each block; a varint on five bytes, which hold 32 bits, and the text of
-- a number on twenty digits, which hold 64. In all other loops a run out of fuel is a panic in the
-- model, so a theorem with a result of `ok` shows that the fuel is enough.
--
-- Not modelled: the event loop, the client's command line, the benchmarks. Creating and deleting
-- files is left out for logs and tables, which the state carries.
pub mod Prelude
pub mod Io
pub mod Crc
pub mod Record
pub mod BTreeMap
pub mod Memtable
pub mod Utils
pub mod Wal
pub mod StorageStrategy
pub mod Tables
pub mod Leveled
pub mod SizeTiered
pub mod Lsm
pub mod Bloom
pub mod HashMap
pub mod Segment
pub mod HashIndex
pub mod Settings
pub mod KvEngine
pub mod Hint
pub mod Lz77
pub mod Block
pub mod SsTable
pub mod Bffp
pub mod Connection
pub mod Server
pub mod Examples
