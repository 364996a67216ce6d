-- ===== src/StoreFile.antt =====
-- valuestorefile_GEN_.go, the writing of a file: the values of memory blocks go through buffers of
-- `checksumInterval` bytes, each of which reaches the disk with its checksum behind it. `sent` is
-- what went to writerChecksumBufChan, in the order of `seq`; `freed` what went to the freeable
-- channels. The checksum is murmur3's, which is not part of the repository.
pub mod Content
pub mod Closing
pub mod Tests
use valuestore.Base.{
  ℕ, zero, suc, ◌+◌, ◌-◌, ◌%◌, ◌^◌, ◌≤◌, ◌<◌, Bool, true, false, List, [], ◌∷◌, ◌++◌, Option, none,
  some, ltb, leb, ◌==◌, if◌then◌else◌, length, take, drop, replicate,
}
use valuestore.Base.Bytes.{Bytes, put_word}
use valuestore.Package.{Error}
use valuestore.MemWriter.{MemBlock}

-- valueStoreFileWriteBuf: buf[:offset] and the blocks that wait for it.
pub record WriteBuf : Type 0 where
  pub buf : Bytes
  pub mem_blocks : List MemBlock

pub record StoreFile : Type 0 where
  pub id : ℕ
  pub checksum_interval : ℕ
  pub writer_offset : ℕ
  pub current : WriteBuf
  pub sent : List WriteBuf
  pub freed : List MemBlock

abbrev pub header_size : ℕ
header_size = 32

-- "VALUESTORE v0" and its fill, 28 bytes
abbrev pub magic : Bytes
magic = 86 ∷ 65 ∷ 76 ∷ 85 ∷ 69 ∷ 83 ∷ 84 ∷ 79 ∷ 82 ∷ 69 ∷ 32 ∷ 118 ∷ 48 ∷ replicate 15 32

-- "TERM v0 "
abbrev pub trailer : Bytes
trailer = 84 ∷ 69 ∷ 82 ∷ 77 ∷ 32 ∷ 118 ∷ 48 ∷ 32 ∷ []

-- createValueReadWriteFile, the state of the writer that it makes
unfoldable pub new_file : ℕ → ℕ → StoreFile
new_file id interval = record {
  id = id;
  checksum_interval = interval;
  writer_offset = header_size;
  current = record { buf = magic ++ put_word 4 interval; mem_blocks = [] };
  sent = [];
  freed = [];
}

abbrev pub room : StoreFile → ℕ
room f = f.checksum_interval - length f.current.buf

-- One round of the loop of `write`: `copy`, and a full buffer is sent.
abbrev pub fill_buf : StoreFile → Bytes → StoreFile
fill_buf f rest =
    let part = take (room f) rest in
    let buf = f.current.buf ++ part in
    let offset = (f.writer_offset + length part) % 2 ^ 32 in
    if leb f.checksum_interval (length buf)
    then record f {
      writer_offset = offset;
      sent = f.sent ++ record { buf = buf; mem_blocks = f.current.mem_blocks } ∷ [];
      current = record { buf = []; mem_blocks = [] };
    }
    else record f {
      writer_offset = offset;
      current = record { buf = buf; mem_blocks = f.current.mem_blocks };
    }

-- `for left > 0`, on fuel
unfoldable pub write_loop : ℕ → StoreFile → Bytes → Option StoreFile
write_loop n f [] = some f
write_loop zero f (x ∷ rest) = none
write_loop (suc n) f (x ∷ rest) = write_loop n (fill_buf f (x ∷ rest)) (drop (room f) (x ∷ rest))

-- `memBlock.fileID = fl.id`, `memBlock.fileOffset = writerOffset`
abbrev pub placed : StoreFile → MemBlock → MemBlock
placed f b = record b { file_id = f.id; file_offset = f.writer_offset }

abbrev pub leave_block : MemBlock → Option StoreFile → Option StoreFile
leave_block b none = none
leave_block b (some f) =
    if length f.current.buf == 0
    then some (record f { freed = f.freed ++ b ∷ [] })
    else some (record f {
      current = record { buf = f.current.buf; mem_blocks = f.current.mem_blocks ++ b ∷ [] };
    })

-- valueStoreFile.write; `none` is a loop that does not end
unfoldable pub write : StoreFile → MemBlock → Option StoreFile
unfolding write_loop
write f b =
    if ltb (length b.values) 1
    then some (record f { freed = f.freed ++ placed f b ∷ [] })
    else leave_block (placed f b) (write_loop (length b.values) f b.values)

-- How the loop of `closeWriting` ends: what it wrote, oldest first, and its first error.
pub record Closed : Type 0 where
  pub written : List Bytes
  pub error : Option Error

-- The checksum, and the outcome of a write to the disk.
module _ (sum32 : Bytes → ℕ) (disk_write : Bytes → Option Error) where
  abbrev pub checksummed : Bytes → Bytes
  checksummed buf = buf ++ put_word 4 (sum32 buf)

  -- One write; without an error the loop goes on.
  abbrev pub wrote : Bytes → Option Error → Option Closed → Option Closed
  wrote buf (some e) rest = some (record { written = []; error = some e })
  wrote buf none none = none
  wrote buf none (some c) = some (record c { written = buf ∷ c.written })

  -- The loop of `closeWriting`: `buf` is what the current buffer holds, `term` what is left to
  -- write.
  unfoldable pub close_loop : ℕ → ℕ → Bytes → Bytes → Option Closed
  close_loop n interval buf [] = some (record { written = []; error = none })
  close_loop zero interval buf (x ∷ term) = none
  close_loop (suc n) interval buf (x ∷ term) =
      let part = buf ++ take (interval - length buf) (x ∷ term) in
      let rest = drop (interval - length buf) (x ∷ term) in
      let out = (if ltb 0 (length rest) then checksummed part else part) in
      wrote out (disk_write out) (close_loop n interval [] rest)

  -- The error of `Close`, where no write had one before it.
  abbrev pub closed_with : Option Error → Option Closed → Option Closed
  closed_with err none = none
  closed_with err (some c) =
      some (record c { error = elim (c.error) [ some e ↦ some e | none ↦ err ] })

  -- closeWriting, of a file that is open for writing, and whose `Close` gives `close_error`; the
  -- blocks that still wait are freed then
  unfoldable pub close_writing : Option Error → StoreFile → Option Closed
  unfolding close_loop
  close_writing close_error f = closed_with close_error (
      close_loop f.checksum_interval f.checksum_interval f.current.buf
        (replicate (f.checksum_interval - 8) 0 ++ trailer))
