-- ===== src/Interrupt/Msix.antt =====
-- include/nic/msix.h and src/msix.cpp: the table of vectors, and which vector a queue has.
use smart_nic.Base.{
  ℕ, Bool, true, List, replicate, ltb, if◌then◌else◌, Option, false, length, not, leb, set, none,
  get_or, some,
}

pub record MsixVector : Type 0 where
  pub address : ℕ
  pub data_word : ℕ
  pub enabled : Bool
  pub masked : Bool

abbrev pub blank_vector : MsixVector
blank_vector = record { address = 0; data_word = 0; enabled = true; masked = false }

pub record MsixTable : Type 0 where
  pub vectors : List MsixVector

unfoldable pub create_table : ℕ → MsixTable
create_table count = record { vectors = replicate count blank_vector }

unfoldable pub valid_index : MsixTable → ℕ → Bool
valid_index t i = ltb i (length t.vectors)

unfoldable pub set_vector : MsixTable → ℕ → MsixVector → Bool × MsixTable
unfolding valid_index
set_vector t i v =
    if not (valid_index t i) then (false, t) else (true, record t { vectors = set t.vectors i v })

unfoldable pub vector : MsixTable → ℕ → Option MsixVector
unfolding valid_index
vector t i = if not (valid_index t i) then none else some (get_or t.vectors i blank_vector)

unfoldable pub mask : MsixTable → ℕ → Bool → Bool × MsixTable
unfolding valid_index
mask t i masked = if not (valid_index t i) then (false, t) else (
  true,
  record t {
    vectors = set t.vectors i (record (get_or t.vectors i blank_vector) { masked = masked });
  },
)

unfoldable pub enable : MsixTable → ℕ → Bool → Bool × MsixTable
unfolding valid_index
enable t i enabled = if not (valid_index t i) then (false, t) else (
  true,
  record t {
    vectors = set t.vectors i (record (get_or t.vectors i blank_vector) { enabled = enabled });
  },
)

pub record MsixMapping : Type 0 where
  pub admin_vector : ℕ
  pub default_vector : ℕ
  pub queue_vectors : List ℕ

unfoldable pub create_mapping : ℕ → ℕ → MsixMapping
create_mapping queue_count default_vector = record {
  admin_vector = default_vector;
  default_vector = default_vector;
  queue_vectors = replicate queue_count default_vector;
}

unfoldable pub set_queue_vector : MsixMapping → ℕ → ℕ → Bool × MsixMapping
set_queue_vector m queue_id v =
    if leb (length m.queue_vectors) queue_id
    then (false, m)
    else (true, record m { queue_vectors = set m.queue_vectors queue_id v })

unfoldable pub queue_vector : MsixMapping → ℕ → ℕ
queue_vector m queue_id =
    if leb (length m.queue_vectors) queue_id
    then m.default_vector
    else get_or m.queue_vectors queue_id 0

unfoldable pub set_admin_vector : MsixMapping → ℕ → MsixMapping
set_admin_vector m v = record m { admin_vector = v }
