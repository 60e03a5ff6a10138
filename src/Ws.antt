-- ===== src/Ws.antt =====
-- crates/relay-server/src/ws.rs: MQTT over WebSocket, a byte stream made of binary frames.
pub mod Reading
pub mod Writing
mod Examples
use ch_relay.Prelude.{
  ℕ, zero, suc, Bool, true, false, ◌||◌, List, [], ◌∷◌, ◌++◌, Option, none, some, if◌then◌else◌,
  any, length, take, drop, ltb, leb, map, ◌&&◌, ◌+◌,
}
use ch_relay.Bytes.{Bytes, codes, bytes_beq, split}

-- A message of the WebSocket library. Pings, pongs and texts are of no use for MQTT.
pub data Frame : Type 0 where
  binary : Bytes → Frame
  close : Frame
  other_frame : Frame

-- What polling the WebSocket yields next.
pub data Incoming : Type 0 where
  message : Frame → Incoming
  broken : Incoming
  ended : Incoming
  waiting : Incoming

-- The bridge: the bytes of a frame that no reader has got yet, what the WebSocket yields from now on,
-- and the frames put into it.
pub record WsByteStream : Type 0 where
  pub read_buf : Bytes
  pub incoming : List Incoming
  pub outgoing : List Frame

abbrev pub new_stream : List Incoming → WsByteStream
new_stream incoming = record { read_buf = []; incoming = incoming; outgoing = [] }

-- A finished poll has put these bytes into the reader's buffer; none are the end of the stream.
pub data ReadPoll : Type 0 where
  ready : Bytes → ReadPoll
  failed : ReadPoll
  pending : ReadPoll

-- The loop of `poll_read`: the bytes of the frame at hand first, and then the next frame. Where
-- nothing is known of what the WebSocket yields, it waits.
unfoldable pub read_loop : ℕ → Bytes → List Incoming → ReadPoll × Bytes × List Incoming
read_loop remaining (b ∷ bs) ws = (ready (take remaining (b ∷ bs)), drop remaining (b ∷ bs), ws)
read_loop remaining [] [] = (pending, [], [])
read_loop remaining [] (message (binary bytes) ∷ ws) = read_loop remaining bytes ws
read_loop remaining [] (message close ∷ ws) = (ready [], [], ws)
read_loop remaining [] (message other_frame ∷ ws) = read_loop remaining [] ws
read_loop remaining [] (broken ∷ ws) = (failed, [], ws)
read_loop remaining [] (ended ∷ ws) = (ready [], [], ws)
read_loop remaining [] (waiting ∷ ws) = (pending, [], ws)

unfoldable pub poll_read : ℕ → WsByteStream → ReadPoll × WsByteStream
poll_read remaining s =
    let (result, read_buf, incoming) = read_loop remaining s.read_buf s.incoming in
    (result, record s { read_buf = read_buf; incoming = incoming })

-- What the WebSocket says to a write: whether it is ready, and whether it then takes the frame.
pub data Sink : Type 0 where
  takes refuses not_ready : Sink

-- The number of bytes written, an error, or none yet.
pub data WritePoll : Type 0 where
  wrote : ℕ → WritePoll
  write_failed : WritePoll
  write_pending : WritePoll

unfoldable pub poll_write : Sink → Bytes → WsByteStream → WritePoll × WsByteStream
poll_write takes buf s = (wrote (length buf), record s { outgoing = s.outgoing ++ binary buf ∷ [] })
poll_write refuses buf s = (write_failed, s)
poll_write not_ready buf s = (write_pending, s)

-- Whether a header value is one that `trim` shortens at its front. The values are visible ASCII,
-- spaces and tabs.
abbrev pub is_space : ℕ → Bool
is_space c = (leb 9 c && leb c 13) || bytes_beq (c ∷ []) (codes " ")

unfoldable pub trim_start : Bytes → Bytes
trim_start [] = []
trim_start (c ∷ s) = if is_space c then trim_start s else c ∷ s

abbrev trim_end_cons : ℕ → Bytes → Bytes
trim_end_cons c [] = if is_space c then [] else c ∷ []
trim_end_cons c (d ∷ s) = c ∷ d ∷ s

unfoldable pub trim_end : Bytes → Bytes
trim_end [] = []
trim_end (c ∷ s) = trim_end_cons c (trim_end s)

unfoldable pub trim : Bytes → Bytes
trim s = trim_end (trim_start s)

-- ASCII letters in lower case.
abbrev pub to_lower : ℕ → ℕ
to_lower c = if leb 65 c && leb c 90 then c + 32 else c

abbrev pub eq_ignore_ascii_case : Bytes → Bytes → Bool
eq_ignore_ascii_case a b = bytes_beq (map to_lower a) (map to_lower b)

-- Whether a value of the header asks for `mqtt`; `none` is a value that is not visible ASCII.
abbrev asks_for_mqtt : Option Bytes → Bool
asks_for_mqtt none = false
asks_for_mqtt (some v) = any (λ p. eq_ignore_ascii_case (trim p) (codes "mqtt")) (split b',' v)

unfoldable pub wants_mqtt : List (Option Bytes) → Bool
wants_mqtt values = any asks_for_mqtt values

-- The protocol that the response to the upgrade names, if it names one.
unfoldable pub upgrade_callback : List (Option Bytes) → Option Bytes → Option Bytes
unfolding wants_mqtt
upgrade_callback values response = if wants_mqtt values then some (codes "mqtt") else response
