-- ===== src/StoreFile/Tests.antt =====
-- Two blocks written to a file with an interval of 40 bytes.
use valuestore.Base.{ℕ, ◌+◌, ◌^◌, ◌≤◌, ◌<◌, refl, arith, [], ◌∷◌, none, length}
use valuestore.MemWriter.{MemBlock}
use valuestore.StoreFile.{StoreFile, new_file, write, close_writing}
use valuestore.StoreFile.Content.{IsOpen, Written, content, write-Written}
use valuestore.StoreFile.Closing.{Sealed, close_writing-Sealed}
use valuestore.Base.Bytes.{Bytes, put_word}

abbrev pub a_file : StoreFile
unfolding new_file
a_file = new_file 3 40

abbrev a_block : MemBlock
a_block = record {
  id = 1;
  file_id = 0;
  file_offset = 0;
  toc = [];
  values = 1 ∷ 2 ∷ 3 ∷ 4 ∷ 5 ∷ 6 ∷ 7 ∷ 8 ∷ 9 ∷ 10 ∷ [];
}

pub a_file-IsOpen : IsOpen a_file
unfolding new_file put_word
a_file-IsOpen = record { has_room = omega arith; are_full = tt; offset_is = refl }

a_file_small : length (content a_file) + 10 < 2 ^ 32
unfolding new_file put_word
a_file_small = omega arith

a_file_wide : 32 ≤ a_file.checksum_interval
unfolding new_file
a_file_wide = omega arith

write-Written_example : Written a_file a_block (write a_file a_block)
write-Written_example = write-Written a_file a_block a_file-IsOpen a_file_small

abbrev a_sum : Bytes → ℕ
a_sum b = length b

close_writing-Sealed_example :
    Sealed a_sum a_file.checksum_interval a_file.current.buf none
      (close_writing a_sum (λ b. none) none a_file)
close_writing-Sealed_example =
    close_writing-Sealed a_sum (λ b. none) (λ b. refl) none a_file a_file_wide a_file-IsOpen
