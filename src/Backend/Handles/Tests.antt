-- ===== src/Backend/Handles/Tests.antt =====
-- The handles of the multi handle for a concrete request, before it and when it is done.
use quic_proxy.Base.{none-ne-some, ◌⊎◌, ◌≡◌, ℕ, refl, List, [], ◌∷◌, none, some}
use quic_proxy.Base.Int.{ℤ, pos}
use quic_proxy.Base.Bytes.{codes}
use quic_proxy.HeaderBlock.Sample.{Block, sample}
use quic_proxy.Curl.{Proxy, init}
use quic_proxy.Stream.{set_proxy_curl}
use quic_proxy.Timer.{ReadAnswer}
use quic_proxy.Backend.{Backend, done, update, find_key, erase_key, has_value, has_elem, bury}
use quic_proxy.Backend.Linked.{Linked, easy_at}
use quic_proxy.Backend.Steps.{bury-Linked}
use quic_proxy.Backend.Unlink.{unlinked-Linked}
use quic_proxy.Backend.Events.{Event, stream_opened, requested, checked, body_received}
use quic_proxy.Backend.Ready.{Reaction}
use quic_proxy.Backend.Handles.{easy_cleanup, destroy, destroy_dead, freed_calls, Held, check_held}
use quic_proxy.Backend.Handles.Safe.{IsHeld}
use quic_proxy.Backend.Handles.Cleaned.{AllOut, cleaned_lem}
use quic_proxy.Backend.Handles.Events.{run_held}
use quic_proxy.Stream
use quic_proxy.HeaderBlock.Sample
use quic_proxy.Backend.Handles.Life.{AllSafe, run_held_lem}
use quic_proxy.Backend.Handles.Sample.{life, empty_held, empty_held-IsHeld, life-AllPermitted}
use quic_proxy.Backend.Sample.{headers, at_100, stream_4, proxy, serving, serving-Linked}

-- The transfer of the stream is done, and its proxy waits on the dead list.
abbrev orphan : Proxy Block
orphan = record proxy { quic_stream = none }

abbrev cut : Backend Block
cut = record serving {
  streams =
      update serving.streams 1 (some (set_proxy_curl none (set_proxy_curl (some 100) stream_4)));
  heap = update serving.heap 100 (some orphan);
}

cut-Linked : Linked cut
unfolding init
cut-Linked =
    unlinked-Linked serving-Linked 1 100 (set_proxy_curl (some 100) stream_4) proxy refl refl refl
      refl

abbrev waiting : Held Block
waiting = record { backend = bury cut 7; multi = [] }

waiting-IsHeld : IsHeld waiting
unfolding bury find_key erase_key has_elem init
waiting-IsHeld = record {
  linked = bury-Linked cut-Linked 7 100 orphan refl refl refl;
  in_table = λ h p e. absurd (none-ne-some e);
  done_out = λ p h e at. refl;
}

one_cleaned : freed_calls waiting.backend [] ≡ easy_cleanup 7 ∷ []
unfolding bury find_key erase_key has_elem has_value init destroy destroy_dead
one_cleaned = refl

cleaned_lem_example :
    (y : Held Block) × (check_held waiting [] ≡ some y)
    × IsHeld y
    × ((easy_at y.backend 100 ≡ some (some 7)) ⊎ (find_key 7 y.multi ≡ none))
    × AllOut y.multi (freed_calls waiting.backend [])
unfolding bury find_key init
cleaned_lem_example = cleaned_lem waiting-IsHeld [] 100 7 tt refl

run_held_lem_example :
    (y : Held Block) × (run_held sample empty_held life ≡ some y)
    × IsHeld y
    × AllSafe sample empty_held life
run_held_lem_example = run_held_lem sample life empty_held-IsHeld life-AllPermitted

-- The last transfer sends a chunk and is done.
abbrev chunk : List (Event Block)
chunk = body_received 100 (codes "abc") 1 3 ∷ []

abbrev serving_held : Held Block
serving_held = record { backend = serving; multi = (7, 100) ∷ [] }

-- Whatever libcurl is told, the chunk comes, and the transfer is done.
abbrev finishes : ℤ → ℕ → Reaction Block
finishes fd action = record { callbacks = chunk; still_running = pos 0; messages = done 7 100 ∷ [] }

abbrev expired : ReadAnswer
expired = record { err = pos 8; errno = 0 }

-- A stream opens and asks, and `curl_easy_init` gives no handle.
abbrev unlucky : List (Event Block)
unlucky =
    stream_opened 1 4 ∷ requested headers [] 1 (record at_100 { handle = none }) ∷ checked [] ∷ []
