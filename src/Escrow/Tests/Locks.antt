-- ===== src/Escrow/Tests/Locks.antt =====
-- Two clients that race for one lock in the in-memory storage.
use snet_daemon.Prelude.{ℕ, List, [], ◌∷◌, ◌≡◌, ◌≢◌, refl, arith}
use snet_daemon.Storage.Memory.{Data, memory_storage, get, put_if_absent}
use snet_daemon.Storage.Memory.Contract.{values, memory-IsKeyValueStorage}
use snet_daemon.Escrow.Lock.{acquire}
use snet_daemon.Escrow.Lock.Mutex.{idle, holding, Clients, run, mutual_exclusion}

abbrev start : Clients Data
start = record { store = []; phases = λ i. idle }

-- Both read, client 0 writes first, client 1 writes in vain.
abbrev race : List ℕ
race = 0 ∷ 1 ∷ 0 ∷ 1 ∷ []

raced : (run memory_storage "{ID: 7}" race start).phases 0 ≡ holding
unfolding run get put_if_absent acquire
raced = refl

mutual_exclusion_example : (run memory_storage "{ID: 7}" race start).phases 1 ≢ holding
mutual_exclusion_example =
    mutual_exclusion memory_storage "{ID: 7}" values memory-IsKeyValueStorage race start 0 1
      (λ k e. ground arith) (λ e. omega arith) raced
