-- ===== src/Server/Events/Tests.antt =====
-- `OnEvent` on concrete events, with a dispatcher to which each packet is a client hello.
use quic_proxy.Base.{ℕ, suc, ◌-◌, ◌≡◌, refl, false, List, [], ◌∷◌, some, arith, ltb}
use quic_proxy.Base.Int.{pos}
use quic_proxy.Reader
use quic_proxy.Reader.{Slot}
use quic_proxy.Reader.Sample.{net, datagram}
use quic_proxy.Server.{Server, init}
use quic_proxy.Server.Events.{Dispatcher, State, recalled}
use quic_proxy.Server.Events.Chlos.{chlos_served}

abbrev dispatcher : Dispatcher ℕ
dispatcher = record {
  process_buffered_chlos = λ n waiting. waiting - n;
  process_packet = λ p waiting. suc waiting;
  has_chlos_buffered = λ waiting. ltb 0 waiting;
  on_can_write = λ waiting. waiting;
  has_pending_writes = λ waiting. false;
  chlos = λ waiting. waiting;
  has_chlos = λ waiting. refl;
  chlos_processed = λ n waiting. refl;
}

abbrev server : Server
server = init (pos 40_000_000)

abbrev slots : List Slot
slots = Reader.init 4 8

abbrev state : List Slot → ℕ → State (List Slot) ℕ
state kernel waiting = record {
  slots = slots;
  packets_dropped = 0;
  kernel = kernel;
  dispatcher = waiting;
}

abbrev arrived : State (List Slot) ℕ
arrived = state (datagram 0 ∷ []) 20

chlos_served_example :
    (st' : State (List Slot) ℕ) × (recalled net dispatcher 1 server 2 1 (state [] 20) ≡ some st')
    × (st'.dispatcher ≡ 0)
chlos_served_example =
    chlos_served net dispatcher 1 server 1 (state [] 20) refl (ground arith) (ground arith)
