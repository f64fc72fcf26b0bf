-- ===== src/Tests/Batch.antt =====
-- The theorems on batches of account states at concrete inputs.
use simple_blockchain_go.Accounts.{zero_state}
use simple_blockchain_go.Base.{Bytes, List, Slice, [], panic, refl, some, ℕ, ◌∷◌, ◌≡◌}
use simple_blockchain_go.Memory.Service.{new_memory_service}
use simple_blockchain_go.Storage.Bolt.{Bolt}
use simple_blockchain_go.Storage.Service.{fetch_accounts, fetch_all_accounts, read_state}
use simple_blockchain_go.Storage.Service.Batch.{
  AllDecoded, AllRead, fetch_accounts_lem, fetch_all_accounts_lem,
}
use simple_blockchain_go.Tests.Data.{empty_db, env, key_of, test_bolt}

abbrev numbers : List ℕ
numbers = 1 ∷ 2 ∷ 3 ∷ 4 ∷ 5 ∷ 6 ∷ 7 ∷ 8 ∷ 9 ∷ 10 ∷ 11 ∷ 12 ∷ []

abbrev twelve_keys : List ℕ → List Slice
twelve_keys [] = []
twelve_keys (n ∷ ns) = some (key_of n) ∷ twelve_keys ns

abbrev twelve_pairs : List ℕ → List (Bytes × Bytes)
twelve_pairs [] = []
twelve_pairs (n ∷ ns) = (key_of n, 0 ∷ n ∷ []) ∷ twelve_pairs ns

-- A database of twelve accounts.
abbrev crowded : Bolt
crowded = record test_bolt { cursor = λ db b. twelve_pairs numbers }

crowded-AllDecoded : (ns : List ℕ) → AllDecoded crowded env (twelve_pairs ns)
crowded-AllDecoded [] = tt
crowded-AllDecoded (n ∷ ns) =
    (λ sized. (record { nonce = 0; balance = n }, refl), crowded-AllDecoded ns)

empty-AllRead : (ns : List ℕ) → AllRead test_bolt env empty_db (twelve_keys ns)
unfolding read_state
empty-AllRead [] = tt
empty-AllRead (n ∷ ns) = ((zero_state, refl), empty-AllRead ns)

fetch_accounts_lem_example :
    (fetch_accounts test_bolt env (twelve_keys numbers) empty_db new_memory_service).1 ≡ panic
fetch_accounts_lem_example =
    fetch_accounts_lem test_bolt env empty_db (twelve_keys numbers) new_memory_service
      (empty-AllRead numbers)

fetch_all_accounts_lem_example :
    (fetch_all_accounts crowded env empty_db new_memory_service).1 ≡ panic
fetch_all_accounts_lem_example =
    fetch_all_accounts_lem crowded env empty_db new_memory_service (crowded-AllDecoded numbers)
