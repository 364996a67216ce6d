-- ===== src/MemClearer/Tests.antt =====
-- The block of the memory writer's tests, once its values are in a file.
use valuestore.Base.{
  ◌+◌, ◌≤◌, ◌<◌, ◌^◌, ◌≡◌, refl, arith, [], ◌∷◌, none, some, length, length-append, take, drop,
}
use valuestore.Base.Bytes.{get_word, put_word}
use valuestore.LocMap.Functions.{functions, functions-IsLocMap}
use valuestore.MemWriter.{MemBlock, toc_entry}
use valuestore.MemWriter.Bounds.{length-toc_entry}
use valuestore.MemWriter.Tests.{a_key, a_block, a_writer}
use valuestore.StoreFile.{StoreFile, new_file, write, placed}
use valuestore.StoreFile.Content.{content}
use valuestore.StoreFile.Tests.{a_file, a_file-IsOpen}
use valuestore.MemClearer.{
  Clearer, MemEntry, place_of, clear_entry, clear_loop, clear, panicked, clear_turn,
}
use valuestore.MemClearer.Entries.{
  encode, clear_entries, clear_loop-encode, Moved, clear_entry-Moved, write-place_of,
}

abbrev a_clearer : Clearer functions
a_clearer = record { tb = none; pending = []; freed = []; map = a_writer.map }

abbrev an_entry : MemEntry
an_entry = record { key = a_key; timestampbits = 256000; offset = 0; size = 2 }

abbrev filed : MemBlock
filed = record a_block { file_id = 3; file_offset = 32 }

encoded_length : length (encode (an_entry ∷ [])) ≤ 32
encoded_length =
    omega (arith, length-append (toc_entry a_key 256000 0 2) [], length-toc_entry a_key 256000 0 2)

clear_loop-encode_example :
    clear_loop functions 64 32 a_clearer 77 filed (encode (an_entry ∷ []))
    ≡ some (clear_entries functions 64 a_clearer 77 filed (an_entry ∷ []))
clear_loop-encode_example =
    clear_loop-encode functions 64 32 a_clearer 77 filed (an_entry ∷ []) encoded_length
      ((omega arith, omega arith, omega arith, omega arith, omega arith), tt)

clear_entry-Moved_example :
    Moved functions 64 a_clearer filed an_entry 77
      (clear_entry functions 64 a_clearer 77 filed an_entry)
clear_entry-Moved_example =
    clear_entry-Moved functions 64 functions-IsLocMap a_clearer 77 filed an_entry
      (λ ts bytes e. absurd cc) refl (omega arith) (omega arith)

a_file_small : length (content a_file) + 4 < 2 ^ 32
unfolding new_file put_word
a_file_small = omega arith

write-place_of_example :
    (g : StoreFile) × (write a_file a_block ≡ some g)
    × (take
          (place_of (placed a_file a_block) an_entry).size
          (drop (place_of (placed a_file a_block) an_entry).offset (content g))
        ≡ 5 ∷ 6 ∷ [])
write-place_of_example =
    write-place_of a_file a_block an_entry a_file-IsOpen a_file_small (omega arith) refl

-- A block that the file writer did not put into a file, as it does after an error, has file id 0.
unfiled_panics : clear_turn functions 64 (λ id. none) a_clearer (clear a_block) ≡ panicked
unfolding clear_turn get_word put_word toc_entry
unfiled_panics = refl
