-- ===== src/Ws/Examples.antt =====
-- Runs of crates/relay-server/src/ws.rs.
use ch_relay.Prelude.{◌≡◌, refl, List, [], ◌∷◌, none, some, arith}
use ch_relay.Bytes.{codes, split, bytes_beq}
use ch_relay.Ws.{
  binary, close, other_frame, message, ended, waiting, new_stream, takes, refuses, not_ready,
  upgrade_callback, Incoming, trim, trim_end, trim_start,
}
use ch_relay.Ws.Reading.{read_each, read_each_lem, at_end}
use ch_relay.Ws.Writing.{write_each, read_each-write_each}

-- A packet in two frames, with an empty frame, a ping and a wait between them.
abbrev two_frames : List Incoming
two_frames =
    message (binary (codes "ab"))
    ∷ message (binary [])
    ∷ waiting
    ∷ message other_frame
    ∷ message (binary (codes "c"))
    ∷ message close
    ∷ []

read_each_lem_example :
    read_each (1 ∷ 5 ∷ 2 ∷ 1 ∷ 1 ∷ []) (new_stream two_frames) ≡ (codes "abc", at_end)
read_each_lem_example =
    read_each_lem (1 ∷ 5 ∷ 2 ∷ 1 ∷ 1 ∷ []) (new_stream two_frames) (omega arith) (λ e. absurd (cc))
      (omega arith)

read_each-write_each_example :
    read_each
      (2 ∷ 2 ∷ 2 ∷ 2 ∷ [])
      (new_stream (message (binary (codes "ab")) ∷ message (binary (codes "c")) ∷ ended ∷ []))
    ≡ (codes "abc", at_end)
unfolding write_each
read_each-write_each_example =
    read_each-write_each
      ((takes, codes "ab")
        ∷ (not_ready, codes "c")
        ∷ (takes, codes "c")
        ∷ (refuses, codes "d")
        ∷ [])
      (2 ∷ 2 ∷ 2 ∷ 2 ∷ []) (omega arith) (omega arith)

upgrade_echoes :
    upgrade_callback (none ∷ some (codes "wamp, MQTT ") ∷ []) none ≡ some (codes "mqtt")
unfolding upgrade_callback split bytes_beq trim trim_end trim_start
upgrade_echoes = refl

upgrade_silent : upgrade_callback (some (codes "mqttv3.1") ∷ []) none ≡ none
unfolding upgrade_callback split bytes_beq trim trim_end trim_start
upgrade_silent = refl
