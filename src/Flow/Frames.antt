-- ===== src/Flow/Frames.antt =====
-- The PAUSE and PFC frames of src/flow_control.cpp. A byte is a number below 256, and an array of
-- eight pause times is a list of eight.
pub mod RoundTrip
use smart_nic.Base.{
  ℕ, Bool, List, get_or, set, if◌then◌else◌, Option, replicate, [], ◌∷◌, ◌*◌, ◌/◌, ltb, not, suc,
  ◌+◌, ◌%◌, length, none, zero, false, some, ◌==◌,
}

abbrev pub ether_type : ℕ
ether_type = 0x8808

abbrev pub opcode_classic_pause : ℕ
opcode_classic_pause = 0x0001

abbrev pub opcode_pfc : ℕ
opcode_pfc = 0x0101

pub record PauseFrame : Type 0 where
  pub opcode : ℕ
  pub pause_time : ℕ

pub record PfcFrame : Type 0 where
  pub opcode : ℕ
  pub enabled_priorities : ℕ
  pub pause_times : List ℕ

-- Two bytes, the high one first: how a word is read, and how it is put.
abbrev pub word_at : List ℕ → ℕ → ℕ
word_at packet i = get_or packet i 0 * 256 + get_or packet (i + 1) 0

abbrev pub put_word : List ℕ → ℕ → ℕ → List ℕ
put_word packet i w = set (set packet i (w / 256 % 256)) (i + 1) (w % 256)

-- `PauseFrame::is_pause_frame`.
unfoldable pub is_pause_frame : List ℕ → Bool
is_pause_frame packet = if ltb (length packet) 14 then false else word_at packet 12 == ether_type

-- `PauseFrame::parse`.
unfoldable pub parse_pause : List ℕ → Option PauseFrame
unfolding is_pause_frame
parse_pause packet =
    if not (is_pause_frame packet)
    then none
    else if ltb (length packet) 18
    then none
    else some (record { opcode = word_at packet 14; pause_time = word_at packet 16 })

-- What both kinds of frame begin with: the multicast address, the EtherType and the opcode.
abbrev pub mac_control : ℕ → List ℕ
mac_control opcode =
    let blank = replicate 64 0 in
    let addressed =
      set (set (set (set (set (set blank 0 0x01) 1 0x80) 2 0xc2) 3 0x00) 4 0x00) 5 0x01 in
    put_word (set (set addressed 12 0x88) 13 0x08) 14 opcode

-- `PauseFrame::serialize`.
unfoldable pub serialize_pause : PauseFrame → List ℕ
serialize_pause f = put_word (mac_control f.opcode) 16 f.pause_time

-- The loop of `PFCFrame::parse` over the priorities left, from byte `i` on.
unfoldable pub read_times : List ℕ → ℕ → ℕ → List ℕ
read_times packet i zero = []
read_times packet i (suc n) = word_at packet i ∷ read_times packet (i + 2) n

-- `PFCFrame::parse`.
unfoldable pub parse_pfc : List ℕ → Option PfcFrame
unfolding is_pause_frame read_times
parse_pfc packet =
    if not (is_pause_frame packet)
    then none
    else if ltb (length packet) 34
    then none
    else if not (word_at packet 14 == opcode_pfc)
    then none
    else some (record {
      opcode = word_at packet 14;
      enabled_priorities = get_or packet 16 0;
      pause_times = read_times packet 18 8;
    })

-- The loop of `PFCFrame::serialize`.
unfoldable pub put_times : List ℕ → ℕ → List ℕ → List ℕ
put_times packet i [] = packet
put_times packet i (t ∷ ts) = put_times (put_word packet i t) (i + 2) ts

-- `PFCFrame::serialize`.
unfoldable pub serialize_pfc : PfcFrame → List ℕ
unfolding put_times
serialize_pfc f = put_times (set (mac_control f.opcode) 16 f.enabled_priorities) 18 f.pause_times
