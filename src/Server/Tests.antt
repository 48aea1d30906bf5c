-- ===== src/Server/Tests.antt =====
-- A server's socket on concrete answers of the system.
use quic_proxy.Base.{arith, ◌<◌, refl, ℕ, ◌≡◌, ◌≢◌, ◌↔◌, ◌⊎◌, true, false, [], ◌∷◌}
use quic_proxy.Base.Int.{pos, minus_one}
use quic_proxy.Server.{Answers, Server, init, create_udp_socket_and_listen}
use quic_proxy.Server.Config.{Config, construct, IsSized, IsHalf, construct_bounds}
use quic_proxy.Server.Listen.{registrations, Succeeds, listen_lem}

abbrev answers : Answers
answers = record {
  created = pos 3;
  overflow = true;
  reused = pos 0;
  bound = pos 0;
  own_port = 6121;
  timer_created = pos 4;
}

abbrev server : Server
server = init (pos 40_000_000)

listen_lem_example :
    let (listens, s', calls) = create_udp_socket_and_listen server 0 answers in
    ((listens ≡ true) ↔ Succeeds answers)
    × (s'.fd ≡ pos 3)
    × (((listens ≡ true)
          × (registrations calls ≡ pos 3 ∷ [])
          × (((◌≢◌ {A = ℕ} 0 0) × (s'.port ≡ 0)) ⊎ ((◌≡◌ {A = ℕ} 0 0) × (s'.port ≡ 6121))))
        ⊎ ((listens ≡ false) × (registrations calls ≡ []) × (s'.port ≡ server.port)))
listen_lem_example = listen_lem server 0 answers

-- The windows are the least, and an idle timeout of 7 seconds is asked for.
abbrev config : Config
config = record {
  max_idle = pos 600;
  default_idle = pos 600;
  stream_window = 16_384;
  session_window = 16_384;
}

construct_bounds_example :
    let c' = (construct 16_384 config (pos 40_000_000) (pos 7)).config in
    IsSized 16_384 65_536 16_384 c'.stream_window
    × IsSized 16_384 1_048_576 16_384 c'.session_window
    × (16_384 < c'.stream_window)
    × (16_384 < c'.session_window)
    × (((pos 7 ≡ minus_one) × (c'.max_idle ≡ pos 600) × (c'.default_idle ≡ pos 600))
        ⊎ ((pos 7 ≢ minus_one) × (c'.max_idle ≡ pos 7) × IsHalf (pos 7) c'.default_idle))
construct_bounds_example =
    construct_bounds 16_384 config (pos 40_000_000) (pos 7) (ground arith) (ground arith)
      (ground arith)

-- One second is no whole half: the default idle timeout is none at all.
one_second : (construct 16_384 config (pos 40_000_000) (pos 1)).config.default_idle ≡ pos 0
unfolding construct
one_second = refl
