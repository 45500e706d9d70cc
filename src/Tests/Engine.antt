-- ===== src/Tests/Engine.antt =====
-- An engine with a completion queue and a queue pair that is ready to send.
use smart_nic.Base.Assoc.{lookup}
use smart_nic.Rdma.Engine.Incoming.{new_parser}
use smart_nic.Rdma.Engine.Completion.{post_all}
use smart_nic.Rdma.Packet.Parser.{RdmaPacketParser}
use smart_nic.Rdma.Engine.References.{IsLinked}
use smart_nic.Memory.Host.{SimpleHostMemory}
use smart_nic.Rdma.CompletionQueue.{RdmaCompletionQueue}
use smart_nic.Rdma.QueuePair.{RdmaQpConfig, RdmaQueuePair}
use smart_nic.Rdma.Engine.{RdmaEngineConfig, RdmaEngine}
use smart_nic.Base.{true, false, none, some, [], ◌∷◌, List, ℕ}
use smart_nic.Rdma.Engine.References.Calls.{
  creates_pd, creates_cq, destroys_cq, creates_qp, destroys_qp, receives, Call, run,
  run-create-IsLinked,
}
use smart_nic.Rdma.Wqe
use smart_nic.Rdma.QueuePair
use smart_nic.Rdma.CompletionQueue
use smart_nic.Rdma.Engine
use smart_nic.Rdma.Wqe.{success, SendWqe}
use smart_nic.Tests.BitFields.{bit_fields}
use smart_nic.Tests.Congestion.{fixed}
use smart_nic.Tests.Congestion

abbrev memory : SimpleHostMemory
memory = record {
  config = record { size_bytes = 4; page_size = 4096; iommu_enabled = false };
  translator = none;
  fault_injector = none;
  buffer = 1 ∷ 2 ∷ 3 ∷ 4 ∷ [];
}

abbrev config : RdmaEngineConfig ℕ
config = record {
  enabled = true;
  max_pds = 256;
  max_mrs = 4096;
  max_qps = 1024;
  max_cqs = 512;
  default_cq_depth = 256;
  mtu = 4096;
  dcqcn_config = Congestion.config;
  reliability_config = Congestion.patience;
}

abbrev qp_config : RdmaQpConfig
qp_config = record {
  type = Wqe.QpType.rc;
  send_queue_depth = 4;
  recv_queue_depth = 4;
  max_send_sge = 1;
  max_recv_sge = 1;
  pd_handle = 1;
  send_cq_number = 1;
  recv_cq_number = 1;
  max_inline_data = 0;
  retry_count = 7;
  rnr_retry_count = 7;
  timeout = 14;
  min_rnr_timer = 12;
}

abbrev calls : List Call
calls =
    creates_pd
    ∷ creates_cq 8
    ∷ creates_qp qp_config
    ∷ destroys_cq 1
    ∷ receives (1 ∷ 2 ∷ [])
    ∷ destroys_qp 1
    ∷ []

run-create-IsLinked_example : IsLinked (run fixed bit_fields (Engine.create config memory) calls)
run-create-IsLinked_example = run-create-IsLinked fixed bit_fields config memory calls

abbrev pair : RdmaQueuePair
pair = record {
  qp_number = 1;
  config = qp_config;
  state = Wqe.QpState.rts;
  dest_qp_number = 2;
  dest_ip = 10 ∷ 0 ∷ 0 ∷ 2 ∷ [];
  dest_port = 4791;
  path_mtu = 3;
  sq_psn = 0xffffff;
  rq_psn = 0;
  last_acked_psn = 0;
  send_queue = [];
  recv_queue = [];
  pending_operations = [];
  current_time_us = 0;
  stats = QueuePair.no_stats;
}

abbrev queue : RdmaCompletionQueue
queue = record {
  cq_number = 1;
  depth = 8;
  cqes = [];
  armed = false;
  has_new_completions = false;
  stats = CompletionQueue.no_stats;
}

abbrev engine : RdmaEngine ℕ
engine = record (Engine.create config memory) { cqs = (1, queue) ∷ []; qps = (1, pair) ∷ [] }

abbrev empty_of : ℕ → SendWqe
empty_of wr_id = record {
  wr_id = wr_id;
  opcode = Wqe.WqeOpcode.send;
  sgl = [];
  total_length = 0;
  signaled = true;
  solicited = false;
  fence = false;
  inline_data = false;
  immediate_data = 0;
  remote_address = 0;
  rkey = 257;
  local_lkey = 256;
}

abbrev sends : List SendWqe
sends = empty_of 7 ∷ empty_of 8 ∷ []

-- The ACK of the second packet, whose number has wrapped to 0.
abbrev last_ack : RdmaPacketParser
last_ack = record new_parser {
  aeth = record { syndrome = Wqe.AethSyndrome.ack; msn = 0 };
  has_aeth = true;
}

-- The queue pair behind the posts.
abbrev posted_pair : RdmaQueuePair
posted_pair = elim (lookup 1 (post_all bit_fields engine 1 sends).1.qps) [
  | some q ↦ q
  | none ↦ pair
]
