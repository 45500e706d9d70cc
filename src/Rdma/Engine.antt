-- ===== src/Rdma/Engine.antt =====
-- `RdmaEngine` of include/nic/rocev2/engine.h and src/rocev2/engine.cpp: the tables, the processors and the
-- packets that wait to be sent. The DMA engine that it refers to is never used. The maps of the queues are lists.
use smart_nic.Rdma.Read.{ReadProcessor}
use smart_nic.Rdma.Write.{WriteProcessor}
use smart_nic.Rdma.SendRecv.{SendRecvProcessor}
use smart_nic.Rdma.Wqe.{RdmaCqe}
use smart_nic.Rdma.CompletionQueue.{RdmaCompletionQueue}
use smart_nic.Rdma.Reliability.{ReliabilityConfig, ReliabilityManager}
use smart_nic.Rdma.QueuePair.{RdmaQueuePair, roce_udp_port}
use smart_nic.Rdma.PdTable.{PdTable}
use smart_nic.Rdma.Congestion.{DcqcnConfig, CongestionControlManager}
use smart_nic.Base.Assoc.{lookup, insert}
use smart_nic.Memory.Host.{SimpleHostMemory}
use smart_nic.Rdma.Transfer.{HostAccess}
use smart_nic.Base.{true, false, refl, none, some, [], ◌∷◌, Bool, ℕ, List, add64, Option, ◌++◌}
use smart_nic.Rdma.PdTable
use smart_nic.Rdma.MrTable
use smart_nic.Rdma.SendRecv
use smart_nic.Rdma.Write
use smart_nic.Rdma.Read
use smart_nic.Rdma.Reliability
use smart_nic.Rdma.Congestion
use smart_nic.Rdma.CompletionQueue
pub mod Resources
pub mod Posting
pub mod Incoming
pub mod Clock
pub mod References
pub mod Completion

pub record RdmaEngineConfig (D : Type 0) : Type 0 where
  pub enabled : Bool
  pub max_pds : ℕ
  pub max_mrs : ℕ
  pub max_qps : ℕ
  pub max_cqs : ℕ
  pub default_cq_depth : ℕ
  pub mtu : ℕ
  pub dcqcn_config : DcqcnConfig D
  pub reliability_config : ReliabilityConfig

pub record RdmaEngineStats : Type 0 where
  pub packets_received : ℕ
  pub packets_sent : ℕ
  pub bytes_received : ℕ
  pub bytes_sent : ℕ
  pub send_wqes_posted : ℕ
  pub recv_wqes_posted : ℕ
  pub cqes_generated : ℕ
  pub errors : ℕ
  pub pds_created : ℕ
  pub mrs_registered : ℕ
  pub qps_created : ℕ
  pub cqs_created : ℕ

pub record OutgoingPacket : Type 0 where
  pub bytes : List ℕ
  pub dest_ip : List ℕ
  pub dest_port : ℕ
  pub src_port : ℕ

-- `host_memory_` and `mr_table_` are in `host`.
pub record RdmaEngine (D : Type 0) : Type 0 where
  pub config : RdmaEngineConfig D
  pub host : HostAccess
  pub stats : RdmaEngineStats
  pub pd_table : PdTable
  pub cqs : List (ℕ × RdmaCompletionQueue)
  pub qps : List (ℕ × RdmaQueuePair)
  pub next_cq_number : ℕ
  pub next_qp_number : ℕ
  pub send_recv_processor : SendRecvProcessor
  pub write_processor : WriteProcessor
  pub read_processor : ReadProcessor
  pub congestion_manager : CongestionControlManager D
  pub reliability_manager : ReliabilityManager
  pub outgoing_packets : List OutgoingPacket

abbrev pub no_stats : RdmaEngineStats
no_stats = record {
  packets_received = 0;
  packets_sent = 0;
  bytes_received = 0;
  bytes_sent = 0;
  send_wqes_posted = 0;
  recv_wqes_posted = 0;
  cqes_generated = 0;
  errors = 0;
  pds_created = 0;
  mrs_registered = 0;
  qps_created = 0;
  cqs_created = 0;
}

module _ {D : Type 0} where
  -- The constructor. The tables have their default limits: `max_pds` and `max_mrs` of the configuration are never
  -- read in the source.
  unfoldable pub create : RdmaEngineConfig D → SimpleHostMemory → RdmaEngine D
  unfolding PdTable.create MrTable.create Congestion.create Reliability.create
  create c memory = record {
    config = c;
    host = record { host_memory = memory; mr_table = MrTable.create 4096 };
    stats = no_stats;
    pd_table = PdTable.create 1024;
    cqs = [];
    qps = [];
    next_cq_number = 1;
    next_qp_number = 1;
    send_recv_processor = SendRecv.create;
    write_processor = Write.create;
    read_processor = Read.create;
    congestion_manager = Congestion.create c.dcqcn_config;
    reliability_manager = Reliability.create c.reliability_config;
    outgoing_packets = [];
  }

  abbrev pub count_error : RdmaEngine D → RdmaEngine D
  count_error e = record e { stats = record (e.stats) { errors = add64 (e.stats.errors) 1 } }

  abbrev pub count_sent : RdmaEngine D → ℕ → RdmaEngine D
  count_sent e n = record e {
    stats = record (e.stats) { packets_sent = add64 (e.stats.packets_sent) n };
  }

  -- A call's changes to the queue pair `key`, which it has by reference.
  abbrev pub put_qp : RdmaEngine D → ℕ → RdmaQueuePair → RdmaEngine D
  put_qp e key q = record e { qps = insert key q e.qps }

  unfoldable pub queue_outgoing_packet : RdmaEngine D → List ℕ → RdmaQueuePair → RdmaEngine D
  queue_outgoing_packet e packet q =
      let out : OutgoingPacket = record {
        bytes = packet;
        dest_ip = q.dest_ip;
        dest_port = roce_udp_port;
        src_port = 0;
      } in
      record e { outgoing_packets = e.outgoing_packets ++ (out ∷ []) }

  unfoldable pub deliver_cqe : RdmaEngine D → ℕ → RdmaCqe → RdmaEngine D
  unfolding lookup insert CompletionQueue.post
  deliver_cqe e cq_number cqe = elim (lookup cq_number e.cqs) [
    | none ↦ e
    | some queue ↦ record e {
      cqs = insert cq_number (CompletionQueue.post queue cqe).1 e.cqs;
      stats = record (e.stats) { cqes_generated = add64 (e.stats.cqes_generated) 1 };
    }
  ]

  unfoldable pub generate_outgoing_packets : RdmaEngine D → List OutgoingPacket × RdmaEngine D
  generate_outgoing_packets e = (e.outgoing_packets, record e { outgoing_packets = [] })

  unfoldable pub query_qp : RdmaEngine D → ℕ → Option RdmaQueuePair
  unfolding lookup
  query_qp e qp_number = lookup qp_number e.qps

  unfoldable pub reset : RdmaEngine D → RdmaEngine D
  unfolding PdTable.reset MrTable.reset SendRecv.reset Congestion.reset Reliability.reset Read.reset
      Write.reset
  reset e = record e {
    qps = [];
    cqs = [];
    outgoing_packets = [];
    pd_table = PdTable.reset e.pd_table;
    host = record (e.host) { mr_table = MrTable.reset (e.host.mr_table) };
    send_recv_processor = SendRecv.reset e.send_recv_processor;
    congestion_manager = Congestion.reset e.congestion_manager;
    reliability_manager = Reliability.reset e.reliability_manager;
    read_processor = Read.reset e.read_processor;
    write_processor = Write.reset e.write_processor;
    stats = no_stats;
    next_cq_number = 1;
    next_qp_number = 1;
  }
