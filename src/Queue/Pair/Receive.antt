-- ===== src/Queue/Pair/Receive.antt =====
-- `handle_rx_segment` of src/queue_pair.cpp: the delivery of a segment to a receive descriptor.
use smart_nic.Base.{
  true, false, ℕ, List, Bool, ◌&&◌, ◌||◌, not, if◌then◌else◌, ltb, leb, ◌==◌, length, drop, add64,
}
use smart_nic.Memory.Dma as Dma
use smart_nic.Memory.Dma.{succeeded}
use smart_nic.Memory.CompletionQueue.{CompletionEntry}
use smart_nic.Queue.Checksum.{compute_checksum}
use smart_nic.Queue.Descriptor.{
  TxDescriptor, RxDescriptor, CompletionCode, ChecksumMode, no_checksum, success, buffer_too_small,
  checksum_error, fault, code_value,
}
use smart_nic.Queue.Pair.{
  QueuePair, make_completion, make_tx_completion, post_tx, post_rx, fire_rx_interrupt,
}

-- What all the segments of a packet share.
pub record Batch : Type 0 where
  pub tx : TxDescriptor
  pub total_segments : ℕ
  pub performed_tso : Bool
  pub performed_gso : Bool

unfoldable pub wants_checksum : ChecksumMode → Bool
wants_checksum no_checksum = false
wants_checksum _ = true

unfoldable pub has_vlan : TxDescriptor → RxDescriptor → Bool
has_vlan tx rx = tx.vlan_insert || rx.vlan_present

unfoldable pub stripped : TxDescriptor → RxDescriptor → List ℕ → List ℕ
unfolding has_vlan
stripped tx rx segment =
    if rx.vlan_strip && (has_vlan tx rx && leb 4 (length segment)) then drop 4 segment else segment

-- The flag and the tag of a stripped header in a completion.
unfoldable pub mark_stripped : TxDescriptor → RxDescriptor → CompletionEntry → CompletionEntry
unfolding has_vlan
mark_stripped tx rx entry =
    if rx.vlan_strip && has_vlan tx rx
    then record entry {
      vlan_stripped = true;
      vlan_tag = if tx.vlan_insert then tx.vlan_tag else rx.vlan_tag;
    }
    else record entry { vlan_stripped = false }

-- The transmit completion of a packet whose delivery stops here: it comes without an interrupt.
unfoldable pub stop_tx : QueuePair → Batch → CompletionCode → QueuePair
unfolding make_tx_completion post_tx
stop_tx q b status =
    post_tx q (make_tx_completion q b.tx status b.total_segments b.performed_tso b.performed_gso)

unfoldable pub drop_small : QueuePair → Batch → RxDescriptor → QueuePair
unfolding stop_tx make_completion mark_stripped post_rx fire_rx_interrupt
drop_small q b rx =
    let entry = make_completion q rx.descriptor_index buffer_too_small in
    let fired = fire_rx_interrupt (post_rx (stop_tx q b success) (mark_stripped b.tx rx entry)) in
    record fired {
      stats = record (fired.stats) {
        drops_buffer_small = add64 (fired.stats.drops_buffer_small) 1;
      };
    }

unfoldable pub fail_write : QueuePair → Batch → RxDescriptor → QueuePair
unfolding stop_tx make_completion post_rx fire_rx_interrupt
fail_write q b rx =
    fire_rx_interrupt (post_rx (stop_tx q b fault) (make_completion q rx.descriptor_index fault))

unfoldable pub drop_checksum : QueuePair → Batch → CompletionEntry → QueuePair
unfolding stop_tx post_rx fire_rx_interrupt code_value
drop_checksum q b entry =
    let failed = record entry { status = code_value checksum_error } in
    let stopped = stop_tx (fire_rx_interrupt (post_rx q failed)) b success in
    record stopped {
      stats = record (stopped.stats) { drops_checksum = add64 (stopped.stats.drops_checksum) 1 };
    }

unfoldable pub deliver : QueuePair → Batch → RxDescriptor → CompletionEntry → List ℕ → QueuePair
unfolding mark_stripped has_vlan post_rx fire_rx_interrupt
deliver q b rx entry segment =
    let counted =
      if rx.vlan_strip && has_vlan b.tx rx
      then record q {
        stats = record (q.stats) { rx_vlan_strips = add64 (q.stats.rx_vlan_strips) 1 };
      }
      else q in
    let fired = fire_rx_interrupt (post_rx counted (mark_stripped b.tx rx entry)) in
    record fired {
      stats = record (fired.stats) {
        rx_packets = add64 (fired.stats.rx_packets) 1;
        rx_bytes = add64 (fired.stats.rx_bytes) (length segment);
      };
    }

-- After the write: the count of GRO, the checksum and the completion.
unfoldable pub accept_segment : QueuePair → Batch → RxDescriptor → List ℕ → Bool × QueuePair
unfolding make_completion wants_checksum drop_checksum deliver compute_checksum
accept_segment q b rx segment =
    let entry = record (make_completion q rx.descriptor_index success) {
      gro_aggregated = rx.gro_enabled;
    } in
    let grouped =
      if rx.gro_enabled
      then record q {
        stats = record (q.stats) { rx_gro_aggregated = add64 (q.stats.rx_gro_aggregated) 1 };
      }
      else q in
    let checked = record grouped {
      stats = record (grouped.stats) {
        rx_checksum_verified = add64 (grouped.stats.rx_checksum_verified) 1;
      };
    } in
    let verified = record entry { checksum_verified = true } in
    if not (rx.checksum_offload && wants_checksum rx.checksum)
    then (true, deliver grouped b rx entry segment)
    else if not (compute_checksum segment == 0)
    then (false, drop_checksum checked b verified)
    else (true, deliver checked b rx verified segment)

unfoldable pub handle_rx_segment : QueuePair → Batch → RxDescriptor → List ℕ → Bool × QueuePair
unfolding stripped drop_small fail_write accept_segment succeeded
handle_rx_segment q b rx segment =
    let payload = stripped b.tx rx segment in
    let (result, dma) = Dma.write q.dma_engine rx.buffer_address payload in
    let q' = record q { dma_engine = dma } in
    if ltb rx.buffer_length (length payload)
    then (false, drop_small q b rx)
    else if not (succeeded result)
    then (false, fail_write q' b rx)
    else accept_segment q' b rx payload
