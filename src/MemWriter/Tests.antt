-- ===== src/MemWriter/Tests.antt =====
-- The memory writer on concrete requests.
use valuestore.Base.{refl, true, false, [], ◌∷◌, some, arith}
use valuestore.LocMap.{Key}
use valuestore.LocMap.Functions.{functions, functions-IsLocMap, nowhere, put}
use valuestore.MemWriter.{Limits, MemBlock, WriteReq, Writer, request, toc_entry, turn}
use valuestore.MemWriter.Bounds.{IsLimits, IsWriter, Keeps, length-toc_entry, turn-Keeps}
use valuestore.MemWriter.ReadBack.{IsReady}
use valuestore.MemWriter.Survival.{Survives, turn-Survives}

abbrev pub a_key : Key
a_key = record { key_a = 1; key_b = 2 }

abbrev pub some_limits : Limits
some_limits = record { value_cap = 10; min_value_alloc = 4; page_size = 64 }

abbrev pub a_block : MemBlock
a_block = record {
  id = 1;
  file_id = 0;
  file_offset = 0;
  toc = toc_entry a_key 256000 0 2;
  values = 5 ∷ 6 ∷ 0 ∷ 0 ∷ [];
}

abbrev free_block : MemBlock
free_block = record { id = 2; file_id = 0; file_offset = 0; toc = []; values = [] }

abbrev pub a_writer : Writer functions
a_writer = record {
  enabled = true;
  mem_block = some a_block;
  toc_offset = 32;
  mem_offset = 4;
  free = free_block ∷ [];
  filed = [];
  map =
      put (λ k. nowhere) a_key
        (record { timestampbits = 256000; block_id = 1; offset = 0; size = 2 });
}

abbrev newer_req : WriteReq
newer_req = record { key = a_key; timestampbits = 256256; value = 7 ∷ []; internal = false }

abbrev older_req : WriteReq
older_req = record { key = a_key; timestampbits = 256000; value = 7 ∷ []; internal = false }

pub some_limits-IsLimits : IsLimits some_limits
some_limits-IsLimits = record {
  values_fit = omega arith;
  allocs_fit = omega arith;
  entries_fit = omega arith;
}

a_writer-IsWriter : IsWriter some_limits a_writer
a_writer-IsWriter = record {
  filled_to = (length-toc_entry a_key 256000 0 2, refl);
  toc_fits = omega arith;
  values_fit = omega arith;
  free_empty = ((refl, refl), tt);
}

pub a_writer-IsReady : IsReady functions some_limits functions-IsLocMap a_writer
a_writer-IsReady = record {
  well_formed = a_writer-IsWriter;
  has_id = omega arith;
  have_ids = (omega arith, tt);
  some_free = omega arith;
}

turn-Keeps_example : Keeps some_limits (turn functions some_limits a_writer (request newer_req))
turn-Keeps_example =
    turn-Keeps functions some_limits some_limits-IsLimits a_writer (request newer_req)
      a_writer-IsWriter

turn-Survives_example :
    Survives a_block [] (turn functions some_limits a_writer (request newer_req))
turn-Survives_example =
    turn-Survives functions some_limits some_limits-IsLimits a_writer a_block (request newer_req)
      a_writer-IsWriter refl
