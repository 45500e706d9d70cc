-- ===== src/Rss.antt =====
-- `RssEngine` of include/nic/rss.h and src/rss.cpp: the Toeplitz hash and the choice of a queue. The counters are
-- `mutable`, so the const methods give the engine back too.
use Prim.Native.Nat.{bit_xor}
use smart_nic.Base.{
  true, false, none, some, [], ◌∷◌, ℕ, List, Bool, Option, zero, suc, ◌+◌, ◌-◌, ◌*◌, ◌/◌, ◌%◌, ◌^◌,
  ◌||◌, not, if◌then◌else◌, ltb, ◌==◌, length, replicate, get_or, set, add64,
}
pub mod Toeplitz
pub mod Selection

pub record RssConfig : Type 0 where
  pub key : List ℕ
  pub table : List ℕ

pub record RssStats : Type 0 where
  pub hashes : ℕ
  pub queue_hits : List ℕ

pub record RssEngine : Type 0 where
  pub config : RssConfig
  pub stats : RssStats

abbrev pub default_key : List ℕ
default_key =
    0x6D ∷ 0x5A ∷ 0x56 ∷ 0x6B ∷ 0x65 ∷ 0x4E ∷ 0x67 ∷ 0x6E ∷ 0x67 ∷ 0x55 ∷ 0x6A ∷ 0x6B ∷ 0x61 ∷ 0x4F
    ∷ 0x6B ∷ 0x65 ∷ 0x6F ∷ 0x49 ∷ 0x4D ∷ 0x42 ∷ []

unfoldable pub or_default : List ℕ → List ℕ → List ℕ
or_default [] standard = standard
or_default (x ∷ xs) standard = x ∷ xs

-- The constructor from a configuration, with `ensure_defaults`; the default table has 128 zeros.
unfoldable pub create : RssConfig → RssEngine
unfolding or_default
create c =
    let table = or_default c.table (replicate 128 0) in
    record {
      config = record { key = or_default c.key default_key; table = table };
      stats = record { hashes = 0; queue_hits = replicate (length table) 0 };
    }

unfoldable pub set_key : RssEngine → List ℕ → RssEngine
unfolding or_default
set_key e key = record e { config = record (e.config) { key = or_default key default_key } }

-- The hit counters keep their number.
unfoldable pub set_table : RssEngine → List ℕ → RssEngine
unfolding or_default
set_table e table = record e {
  config = record (e.config) { table = or_default table (replicate 128 0) };
}

-- Bit `i` of a buffer, from the high bit of its first byte on.
unfoldable pub bit_at : List ℕ → ℕ → Bool
bit_at bytes i = get_or bytes (i / 8) 0 / 2 ^ (7 - i % 8) % 2 == 1

-- The loop over `k`, with `n` rounds to go.
unfoldable pub key_segment : List ℕ → ℕ → ℕ → ℕ → ℕ
unfolding bit_at
key_segment key bit segment zero = segment
key_segment key bit segment (suc n) =
    let one = if bit_at key ((bit + (32 - suc n)) % (length key * 8)) then 1 else 0 in
    key_segment key bit (segment * 2 % 2 ^ 32 + one) n

-- The loop over the bits of the data, with `n` rounds to go.
unfoldable pub hash_bits : List ℕ → List ℕ → ℕ → ℕ → ℕ
unfolding bit_at key_segment
hash_bits key bytes hash_value zero = hash_value
hash_bits key bytes hash_value (suc n) =
    let bit = length bytes * 8 - suc n in
    let next =
      if bit_at bytes bit then bit_xor hash_value (key_segment key bit 0 32) else hash_value in
    hash_bits key bytes next n

unfoldable pub toeplitz_hash : List ℕ → List ℕ → ℕ
unfolding hash_bits
toeplitz_hash key bytes =
    if length key == 0 || length bytes == 0 then 0 else hash_bits key bytes 0 (length bytes * 8)

unfoldable pub hash : RssEngine → List ℕ → ℕ × RssEngine
unfolding toeplitz_hash
hash e bytes = (
  toeplitz_hash e.config.key bytes,
  record e { stats = record (e.stats) { hashes = add64 (e.stats.hashes) 1 } },
)

unfoldable pub count_hit : RssEngine → ℕ → RssEngine
count_hit e i =
    let hits = e.stats.queue_hits in
    if ltb i (length hits)
    then record e {
      stats = record (e.stats) { queue_hits = set hits i (add64 (get_or hits i 0) 1) };
    }
    else e

unfoldable pub select_queue : RssEngine → List ℕ → Option ℕ × RssEngine
unfolding hash count_hit
select_queue e bytes =
    let size = length (e.config.table) in
    let (value, e') = hash e bytes in
    let i = value % (size % 2 ^ 32) in
    if size == 0 then (none, e) else (some (get_or (e.config.table) i 0), count_hit e' i)

unfoldable pub reset_stats : RssEngine → RssEngine
reset_stats e = record e {
  stats = record { hashes = 0; queue_hits = replicate (length (e.config.table)) 0 };
}
