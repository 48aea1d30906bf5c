-- ===== src/Processes/Worker/Tests.antt =====
-- A worker with a backend, on answers of the system with which its server listens.
use quic_proxy.Base.{◌≡◌, ◌↔◌, ◌⊎◌, Bool, true, false, List, [], ◌∷◌, some, is_empty, if◌then◌else◌}
use quic_proxy.Base.Int.{pos, minus_one}
use quic_proxy.Base.Bytes.{codes}
use quic_proxy.HeaderBlock.Sample.{Block}
use quic_proxy.Server.Listen.{Succeeds}
use quic_proxy.Backend.Linked.{Linked}
use quic_proxy.Processes.Worker.{Flags, World, Parts, WorkerCall, multi_cleanup, leave, worker}
use quic_proxy.Processes.Worker.Serving.{watched, worker_lem}

abbrev flags : Flags
flags = record {
  backend_url = codes "http://b";
  port = 6121;
  sendmmsgtimer_interval = pos 40_000_000;
  idle_network_timeout = minus_one;
}

abbrev world : World
world = record {
  is_valid = true;
  is_http = true;
  spec = codes "http://b/";
  answers = record {
    created = pos 3;
    overflow = true;
    reused = pos 0;
    bound = pos 0;
    own_port = 6121;
    timer_created = pos 4;
  };
  curl_timer_created = pos 5;
  minimum = 16_384;
  config = record {
    max_idle = pos 600;
    default_idle = pos 600;
    stream_window = 16_384;
    session_window = 16_384;
  };
}

worker_lem_example :
    (serves : Bool) × (w : Parts Block) × (calls : List WorkerCall) × (worker flags world
      ≡ some (serves, w, calls))
    × ((serves ≡ true) ↔ Succeeds world.answers)
    × (watched calls ≡ (if serves then pos 3 ∷ pos 4 ∷ pos 5 ∷ [] else []))
    × Linked w.backend
    × ((w.backend.cache_initialized ≡ true)
        ↔ ((is_empty (codes "http://b") ≡ false) × (true ≡ true) × (true ≡ true)))
    × ((serves ≡ true) ⊎ (leave w ≡ multi_cleanup ∷ []))
worker_lem_example = worker_lem flags world
