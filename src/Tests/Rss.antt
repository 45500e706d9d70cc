-- ===== src/Tests/Rss.antt =====
-- Receive side scaling with a key of four bytes and a table of three queues.
use smart_nic.Base.{[], ◌∷◌, List, ◌≡◌, refl, arith, length, get_or, some, ◌<◌, ◌%◌}
use smart_nic.Rss.{RssConfig, create, select_queue, toeplitz_hash, set_table}
use smart_nic.Rss.Toeplitz.{toeplitz, repeated, bits_of, toeplitz_hash-toeplitz}
use smart_nic.Rss.Selection.{
  hashes, Call, sets_table, selects, resets_stats, run, run-select_queue, are_reading,
}

abbrev config : RssConfig
config = record { key = 0x6D ∷ 0x5A ∷ 0x56 ∷ 0x6B ∷ []; table = [] }

abbrev calls : List Call
calls = selects (1 ∷ []) ∷ sets_table (7 ∷ 8 ∷ 9 ∷ []) ∷ []

-- One bit takes the key's first 32 bits, and the last bit of a byte those from the eighth on.
toeplitz_hash_bits :
    (toeplitz_hash (0x6D ∷ 0x5A ∷ 0x56 ∷ 0x6B ∷ []) (128 ∷ []) ≡ 0x6D5A566B)
    × (toeplitz_hash (0x6D ∷ 0x5A ∷ 0x56 ∷ 0x6B ∷ 0x65 ∷ []) (1 ∷ []) ≡ 0xAD2B35B2)
unfolding toeplitz_hash
toeplitz_hash_bits = (refl, refl)

toeplitz_hash-toeplitz_example :
    toeplitz_hash (0x6D ∷ 0x5A ∷ []) (5 ∷ 6 ∷ [])
    ≡ toeplitz (repeated (0x6D ∷ 0x5A ∷ [])) 0 0 (bits_of (5 ∷ 6 ∷ []))
toeplitz_hash-toeplitz_example =
    toeplitz_hash-toeplitz (0x6D ∷ 0x5A ∷ []) (5 ∷ 6 ∷ []) (omega arith)

run-select_queue_example :
    let e = run (create config) calls in
    let index =
      toeplitz (repeated (e.config.key)) 0 0 (bits_of (5 ∷ [])) % length (e.config.table) in
    (index < length (e.config.table))
    × ((select_queue e (5 ∷ [])).0 ≡ some (get_or (e.config.table) index 0))
    × ((select_queue (run e (hashes (1 ∷ []) ∷ selects (5 ∷ []) ∷ resets_stats ∷ [])) (5 ∷ [])).0
        ≡ (select_queue e (5 ∷ [])).0)
unfolding set_table are_reading run
run-select_queue_example =
    run-select_queue config calls (hashes (1 ∷ []) ∷ selects (5 ∷ []) ∷ resets_stats ∷ []) (5 ∷ [])
      (omega arith) refl
