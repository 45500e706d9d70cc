-- ===== src/Flow/Frames/RoundTrip.antt =====
-- What is serialized is parsed again, for both kinds of frame of src/flow_control.cpp.
use smart_nic.Base.{
  ℕ, ◌<◌, List, ◌≡◌, ◌^◌, ◌∷◌, length, get_or, ◌+◌, some, length-set, get_or-set_ne, arith, ◌∙◌,
  ◌≤◌, ◌/◌, ◌*◌, [], set, ◌%◌, refl, get_or-set_self, true, subst,
}
use smart_nic.Flow.Frames.{
  PauseFrame, PfcFrame, opcode_pfc, word_at, put_word, is_pause_frame, parse_pause, parse_pfc,
  serialize_pause, serialize_pfc, read_times, put_times, mac_control,
}

word-split : (w : ℕ) → w < 2 ^ 16 → w / 256 % 256 * 256 + w % 256 ≡ w
word-split w h = omega arith

-- A PAUSE frame of 16-bit fields is read back as it was written.
pub parse_pause-serialize_pause :
    (f : PauseFrame)
    → f.opcode < 2 ^ 16
    → f.pause_time < 2 ^ 16
    → parse_pause (serialize_pause f) ≡ some f
unfolding parse_pause is_pause_frame serialize_pause
parse_pause-serialize_pause f h k = ground (arith, word-split f.opcode h, word-split f.pause_time k)

abbrev pub AllWords : List ℕ → Type 0
AllWords [] = Unit {0}
AllWords (t ∷ ts) = (t < 2 ^ 16) × AllWords ts

length-put_word : (p : List ℕ) (i w : ℕ) → length (put_word p i w) ≡ length p
length-put_word p i w =
    length-set (set p i (w / 256 % 256)) (i + 1) (w % 256) ∙ length-set p i (w / 256 % 256)

get_or-put_word : (p : List ℕ) (i k w : ℕ) → k < i → get_or (put_word p i w) k 0 ≡ get_or p k 0
get_or-put_word p i k w h =
    get_or-set_ne (set p i (w / 256 % 256)) (i + 1) k (w % 256) 0 (omega arith)
    ∙ get_or-set_ne p i k (w / 256 % 256) 0 (omega arith)

-- Times put behind a byte leave it.
get_or-put_times :
    (p : List ℕ) (i k : ℕ) (ts : List ℕ) → k < i → get_or (put_times p i ts) k 0 ≡ get_or p k 0
unfolding put_times
get_or-put_times p i k [] h = refl
get_or-put_times p i k (t ∷ ts) h =
    get_or-put_times (put_word p i t) (i + 2) k ts (omega arith) ∙ get_or-put_word p i k t h

length-put_times : (p : List ℕ) (i : ℕ) (ts : List ℕ) → length (put_times p i ts) ≡ length p
unfolding put_times
length-put_times p i [] = refl
length-put_times p i (t ∷ ts) = length-put_times (put_word p i t) (i + 2) ts ∙ length-put_word p i t

word_at-put_word :
    (p : List ℕ) (i w : ℕ) → w < 2 ^ 16 → i + 2 ≤ length p → word_at (put_word p i w) i ≡ w
word_at-put_word p i w h room =
    let hi =
      get_or-set_ne (set p i (w / 256 % 256)) (i + 1) i (w % 256) 0 (omega arith)
      ∙ get_or-set_self p i (w / 256 % 256) 0 (omega arith) in
    let lo =
      get_or-set_self (set p i (w / 256 % 256)) (i + 1) (w % 256) 0
        (omega (arith, length-set p i (w / 256 % 256))) in
    omega (arith, hi, lo, word-split w h)

read_times-put_times :
    (p : List ℕ) (i : ℕ) (ts : List ℕ)
    → AllWords ts
    → i + 2 * length ts ≤ length p
    → read_times (put_times p i ts) i (length ts) ≡ ts
unfolding read_times put_times
read_times-put_times p i [] small room = refl
read_times-put_times p i (t ∷ ts) small room =
    let p' = put_word p i t in
    let hi = get_or-put_times p' (i + 2) i ts (omega arith) in
    let lo = get_or-put_times p' (i + 2) (i + 1) ts (omega arith) in
    let here : word_at (put_times p' (i + 2) ts) i ≡ t =
      omega (arith, hi, lo, word_at-put_word p i t small.0 (omega arith)) in
    let rest =
      read_times-put_times p' (i + 2) ts small.1 (omega (arith, room, length-put_word p i t)) in
    cc (here, rest)

-- The front of a serialized PFC frame.
abbrev front : PfcFrame → List ℕ
front f = set (mac_control f.opcode) 16 f.enabled_priorities

byte-front : (f : PfcFrame) (k : ℕ) → k < 18 → get_or (serialize_pfc f) k 0 ≡ get_or (front f) k 0
unfolding serialize_pfc
byte-front f k h = get_or-put_times (front f) 18 k f.pause_times h

length-serialize_pfc : (f : PfcFrame) → length (serialize_pfc f) ≡ 64
unfolding serialize_pfc
length-serialize_pfc f = length-put_times (front f) 18 f.pause_times

is_pause_frame-serialize_pfc : (f : PfcFrame) → is_pause_frame (serialize_pfc f) ≡ true
unfolding is_pause_frame
is_pause_frame-serialize_pfc f =
    ground
      (arith, length-serialize_pfc f, byte-front f 12 (omega arith), byte-front f 13 (omega arith))

opcode-serialize_pfc : (f : PfcFrame) → f.opcode < 2 ^ 16 → word_at (serialize_pfc f) 14 ≡ f.opcode
opcode-serialize_pfc f h =
    omega
      (arith, byte-front f 14 (omega arith), byte-front f 15 (omega arith), word-split f.opcode h)

times-serialize_pfc :
    (f : PfcFrame)
    → length f.pause_times ≡ 8
    → AllWords f.pause_times
    → read_times (serialize_pfc f) 18 8 ≡ f.pause_times
unfolding serialize_pfc
times-serialize_pfc f n small =
    subst (λ m. read_times (serialize_pfc f) 18 m ≡ f.pause_times) n
      (read_times-put_times (front f) 18 f.pause_times small (omega (arith, n)))

-- A PFC frame with the PFC opcode, a byte of priorities and eight 16-bit pause times is read back
-- as it was written.
pub parse_pfc-serialize_pfc :
    (f : PfcFrame)
    → f.opcode ≡ opcode_pfc
    → f.enabled_priorities < 256
    → length f.pause_times ≡ 8
    → AllWords f.pause_times
    → parse_pfc (serialize_pfc f) ≡ some f
unfolding parse_pfc
parse_pfc-serialize_pfc f e h n small = ground (
  arith,
  e,
  length-serialize_pfc f,
  is_pause_frame-serialize_pfc f,
  opcode-serialize_pfc f (omega (arith, e)),
  byte-front f 16 (omega arith),
  times-serialize_pfc f n small,
)

-- The parser of PAUSE frames takes a PFC frame too, and reads its byte of priorities as the high
-- half of the pause time.
pub parse_pause-serialize_pfc :
    (f : PfcFrame)
    → f.opcode < 2 ^ 16
    → f.enabled_priorities < 256
    → parse_pause (serialize_pfc f)
      ≡ some (record { opcode = f.opcode; pause_time = f.enabled_priorities * 256 })
unfolding parse_pause
parse_pause-serialize_pfc f h k = ground (
  arith,
  length-serialize_pfc f,
  is_pause_frame-serialize_pfc f,
  opcode-serialize_pfc f h,
  byte-front f 16 (omega arith),
  byte-front f 17 (omega arith),
)
