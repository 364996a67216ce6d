-- ===== src/Store/Tests.antt =====
-- The store's methods on a store of one worker.
use valuestore.Base.{ℕ, none, ◌≡◌, refl, arith, pos, true, false, List, [], ◌∷◌}
use valuestore.LocMap.{Key}
use valuestore.LocMap.Functions.{nowhere, functions, functions-IsLocMap}
use valuestore.MemWriter.Tests.{
  a_key, some_limits, a_writer, some_limits-IsLimits, a_writer-IsReady,
}
use valuestore.MemWriter.{MemBlock}
use valuestore.Store.{answered, Store, Worker, Counters, api_write, api_delete}
use valuestore.Store.ReadBack.{WroteMicro, api_write-WroteMicro}
use valuestore.Store.Tombstone.{Deleted, api_delete-Deleted}
use valuestore.Store.Calls.{Call, writing, deleting, was, Spec, spec_call, spec_run, run_calls}
use valuestore.Store.Effects.{IsSound}
use valuestore.Store.Contract.{Answers, run_calls-Answers}
use valuestore.Store.Switches.{
  Switch, enabling, disabling, switches, user_wants_off, IsObeyed, switches-IsObeyed,
}

abbrev pub a_worker : Worker
a_worker = record {
  enabled = true;
  mem_block = a_writer.mem_block;
  toc_offset = a_writer.toc_offset;
  mem_offset = a_writer.mem_offset;
}

abbrev pub no_counts : Counters
no_counts = record {
  lookups = 0;
  lookup_errors = 0;
  reads = 0;
  read_errors = 0;
  writes = 0;
  write_errors = 0;
  writes_overridden = 0;
  deletes = 0;
  delete_errors = 0;
  deletes_overridden = 0;
  modifications = 0;
}

abbrev pub a_store : Store functions
a_store = record {
  workers = a_worker ∷ [];
  free = a_writer.free;
  filed = [];
  map = a_writer.map;
  read_only = false;
  user_disabled = false;
  counters = no_counts;
}

api_write-WroteMicro_example :
    WroteMicro functions a_store a_key 1001
      (7 ∷ [])
      (api_write functions some_limits a_store a_key (pos 1001) (7 ∷ []))
api_write-WroteMicro_example =
    api_write-WroteMicro functions some_limits functions-IsLocMap some_limits-IsLimits a_store
      a_worker a_key 1001 (7 ∷ []) refl a_writer-IsReady refl (omega arith) (omega arith)
      (omega arith) (omega arith)

api_delete-Deleted_example :
    Deleted functions a_store a_key 1000 (api_delete functions some_limits a_store a_key (pos 1000))
api_delete-Deleted_example =
    api_delete-Deleted functions some_limits functions-IsLocMap some_limits-IsLimits a_store
      a_worker a_key 1000 refl a_writer-IsReady (omega arith) (omega arith) (omega arith)

abbrev some_calls : List (Switch functions some_limits)
some_calls = disabling true ∷ enabling false ∷ []

a_store-IsObeyed : IsObeyed functions some_limits a_store
a_store-IsObeyed e = absurd cc

switches-IsObeyed_example :
    ((switches functions some_limits a_store some_calls).user_disabled
      ≡ user_wants_off functions some_limits false some_calls)
    × IsObeyed functions some_limits (switches functions some_limits a_store some_calls)
switches-IsObeyed_example =
    switches-IsObeyed functions some_limits a_store some_calls a_store-IsObeyed

abbrev empty_block : ℕ → MemBlock
empty_block n = record { id = n; file_id = 0; file_offset = 0; toc = []; values = [] }

abbrev pub new_store : Store functions
new_store = record {
  workers = record { enabled = true; mem_block = none; toc_offset = 0; mem_offset = 0 } ∷ [];
  free = empty_block 1 ∷ empty_block 2 ∷ empty_block 3 ∷ [];
  filed = [];
  map = λ k. nowhere;
  read_only = false;
  user_disabled = false;
  counters = no_counts;
}

abbrev nothing : Spec
nothing k = (0, none)

-- A write, a delete of it, and a write that comes too late.
abbrev three_calls : List Call
three_calls =
    writing a_key (pos 1000) (5 ∷ 6 ∷ [])
    ∷ deleting a_key (pos 1000)
    ∷ writing a_key (pos 999) (7 ∷ [])
    ∷ []

pub new_store-IsSound : IsSound some_limits true new_store.workers new_store.free
new_store-IsSound = (
  omega arith,
  ((tt, omega arith, omega arith, tt, refl), tt),
  ((refl, refl), ((refl, refl), ((refl, refl), tt))),
  (omega arith, (omega arith, (omega arith, tt))),
)

run_calls-Answers_example :
    (after : Store functions) × (run_calls functions some_limits new_store three_calls
      ≡ answered after (spec_run functions some_limits true nothing three_calls).1)
    × ((k : Key) → Answers after k ((spec_run functions some_limits true nothing three_calls).0 k))
run_calls-Answers_example =
    run_calls-Answers functions some_limits functions-IsLocMap some_limits-IsLimits true three_calls
      new_store nothing (λ k. (refl, refl)) new_store-IsSound (omega arith)

-- The third call does not undo the delete.
three_calls_told :
    (spec_run functions some_limits true nothing three_calls).1 ≡ was 0 ∷ was 1000 ∷ was 1000 ∷ []
unfolding spec_run spec_call
three_calls_told = refl
