-- ===== src/Rss/Selection.antt =====
-- The queues that src/rss.cpp selects, after any calls.
use native.Mathlib.Nat.{mod-lt}
use smart_nic.Rss.Toeplitz.{toeplitz, repeated, bits_of, toeplitz_hash-toeplitz}
use smart_nic.Base.{
  true, false, subst, some, [], ◌∷◌, ℕ, List, Bool, Option, ◌%◌, ◌^◌, ◌<◌, ◌≡◌, refl, sym, ap, ◌∙◌,
  if-cases, arith, ltb, ◌==◌, length, replicate, get_or,
}
use smart_nic.Rss.{
  RssConfig, RssEngine, create, set_key, set_table, hash, count_hit, select_queue, reset_stats,
  or_default, default_key,
}

-- The public methods that change an engine.
pub data Call : Type 0 where
  sets_key : List ℕ → Call
  sets_table : List ℕ → Call
  hashes : List ℕ → Call
  selects : List ℕ → Call
  resets_stats : Call

unfoldable pub step : RssEngine → Call → RssEngine
step e (sets_key key) = set_key e key
step e (sets_table table) = set_table e table
step e (hashes bytes) = (hash e bytes).1
step e (selects bytes) = (select_queue e bytes).1
step e resets_stats = reset_stats e

unfoldable pub run : RssEngine → List Call → RssEngine
unfolding step
run e [] = e
run e (call ∷ calls) = run (step e call) calls

-- The calls that leave the key and the table.
unfoldable pub are_reading : List Call → Bool
are_reading [] = true
are_reading (hashes bytes ∷ calls) = are_reading calls
are_reading (selects bytes ∷ calls) = are_reading calls
are_reading (resets_stats ∷ calls) = are_reading calls
are_reading (_ ∷ calls) = false

or_default-length :
    (xs standard : List ℕ) → 0 < length standard → 0 < length (or_default xs standard)
unfolding or_default
or_default-length [] standard h = h
or_default-length (x ∷ xs) standard h = omega arith

count_hit-config : (e : RssEngine) (i : ℕ) → (count_hit e i).config ≡ e.config
unfolding count_hit
count_hit-config e i =
    if-cases (λ (r : RssEngine). r.config ≡ e.config) (ltb i (length (e.stats.queue_hits))) _ _
      (λ c. refl) (λ c. refl)

select_queue-config : (e : RssEngine) (bytes : List ℕ) → (select_queue e bytes).1.config ≡ e.config
unfolding select_queue hash
select_queue-config e bytes =
    if-cases (λ (r : Option ℕ × RssEngine). r.1.config ≡ e.config) (length (e.config.table) == 0) _
      _ (λ c. refl) (λ c. count_hit-config (hash e bytes).1 _)

-- The key and the table have an entry.
IsReady : RssEngine → Type 0
IsReady e = (0 < length (e.config.key)) × (0 < length (e.config.table))

step-IsReady : (e : RssEngine) (call : Call) → IsReady e → IsReady (step e call)
unfolding step set_key set_table hash reset_stats IsReady
step-IsReady e (sets_key key) h = (or_default-length key default_key (omega arith), h.1)
step-IsReady e (sets_table table) h = (h.0, or_default-length table (replicate 128 0) (omega arith))
step-IsReady e (hashes bytes) h = h
step-IsReady e (selects bytes) h = rw (select_queue-config e bytes) h
step-IsReady e resets_stats h = h

run-IsReady : (e : RssEngine) (calls : List Call) → IsReady e → IsReady (run e calls)
unfolding run
run-IsReady e [] h = h
run-IsReady e (call ∷ calls) h = run-IsReady (step e call) calls (step-IsReady e call h)

create-IsReady : (c : RssConfig) → IsReady (create c)
unfolding create IsReady
create-IsReady c = (
  or_default-length c.key default_key (omega arith),
  or_default-length c.table (replicate 128 0) (omega arith),
)

reading-config :
    (e : RssEngine) (calls : List Call) → are_reading calls ≡ true → (run e calls).config ≡ e.config
unfolding run step are_reading reset_stats hash
reading-config e [] h = refl
reading-config e (selects bytes ∷ calls) h =
    reading-config (select_queue e bytes).1 calls h ∙ select_queue-config e bytes
reading-config e (hashes bytes ∷ calls) h = reading-config (hash e bytes).1 calls h
reading-config e (resets_stats ∷ calls) h = reading-config (reset_stats e) calls h
reading-config e (sets_key key ∷ calls) h = absurd (ground arith)
reading-config e (sets_table table ∷ calls) h = absurd (ground arith)

-- The queue that a configuration assigns to a packet.
unfoldable pub assigned : RssConfig → List ℕ → ℕ
assigned c bytes = get_or c.table (toeplitz (repeated c.key) 0 0 (bits_of bytes) % length c.table) 0

select_queue-assigned :
    (e : RssEngine) (bytes : List ℕ)
    → IsReady e
    → length (e.config.table) < 2 ^ 32
    → (select_queue e bytes).0 ≡ some (assigned e.config bytes)
unfolding select_queue hash assigned IsReady
select_queue-assigned e bytes h small =
    let full : (length (e.config.table) == 0) ≡ false = ground (arith, h.1) in
    let width : length (e.config.table) % 2 ^ 32 ≡ length (e.config.table) = omega arith in
    let hashed = toeplitz_hash-toeplitz e.config.key bytes h.0 in
    rw (select_queue, full, width, hashed) refl

-- After any calls on a new engine, and where the table has fewer than 2^32 entries: a packet is given the queue at
-- the entry of the table whose index, which lies in the table, is its Toeplitz hash modulo the table's size; and,
-- until the key or the table is set, it is given the same one each time.
pub run-select_queue :
    (c : RssConfig) (calls later : List Call) (bytes : List ℕ)
    → length ((run (create c) calls).config.table) < 2 ^ 32
    → are_reading later ≡ true
    → let e = run (create c) calls in
      let index =
        toeplitz (repeated (e.config.key)) 0 0 (bits_of bytes) % length (e.config.table) in
      (index < length (e.config.table))
      × ((select_queue e bytes).0 ≡ some (get_or (e.config.table) index 0))
      × ((select_queue (run e later) bytes).0 ≡ (select_queue e bytes).0)
unfolding assigned IsReady
run-select_queue c calls later bytes small reading =
    let e = run (create c) calls in
    let ready = run-IsReady (create c) calls (create-IsReady c) in
    let now = select_queue-assigned e bytes ready small in
    let same = reading-config e later reading in
    let still = run-IsReady e later ready in
    let fits = subst (λ (k : RssConfig). length k.table < 2 ^ 32) (sym same) small in
    (
      mod-lt _ (ready.1),
      now,
      select_queue-assigned (run e later) bytes still fits
          ∙ ap (λ (k : RssConfig). some (assigned k bytes)) same
          ∙ sym now,
    )
