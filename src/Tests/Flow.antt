-- ===== src/Tests/Flow.antt =====
-- Frames and a flow control manager at work.
use smart_nic.Base.{◌≡◌, ◌∷◌, arith, true, some, [], false, refl}
use smart_nic.Flow.Frames.{PauseFrame, PfcFrame, opcode_pfc, parse_pfc, serialize_pfc}
use smart_nic.Flow.Frames.RoundTrip.{AllWords, parse_pfc-serialize_pfc}
use smart_nic.Flow.Pause.{FlowControlManager, no_stats}
use smart_nic.Flow.Pause.Laws.{watch, Alternates, watch-Alternates}

abbrev pause : PauseFrame
pause = record { opcode = 1; pause_time = 0x1234 }

abbrev pfc : PfcFrame
pfc = record {
  opcode = opcode_pfc;
  enabled_priorities = 0x81;
  pause_times = 1 ∷ 2 ∷ 0x300 ∷ 4 ∷ 5 ∷ 6 ∷ 7 ∷ 0xffff ∷ [];
}

times-AllWords : AllWords pfc.pause_times
times-AllWords = (
  omega arith,
  (
    omega arith,
    (omega arith, (omega arith, (omega arith, (omega arith, (omega arith, (omega arith, tt)))))),
  ),
)

parse_pfc-serialize_pfc_example : parse_pfc (serialize_pfc pfc) ≡ some pfc
parse_pfc-serialize_pfc_example = parse_pfc-serialize_pfc pfc refl (omega arith) refl times-AllWords

abbrev manager : FlowControlManager
manager = record {
  config = record {
    rx_pause_enabled = true;
    tx_pause_enabled = true;
    pause_threshold = 10;
    resume_threshold = 4;
    default_pause_time = 100;
  };
  pause_timer = 50;
  stats = no_stats;
  pause_sent = false;
}

watch-Alternates_example :
    let (frames, m') = watch manager (3 ∷ 12 ∷ 11 ∷ 3 ∷ []) in
    Alternates 100 false m'.pause_sent frames
watch-Alternates_example = watch-Alternates manager (3 ∷ 12 ∷ 11 ∷ 3 ∷ [])
