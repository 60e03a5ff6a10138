-- ===== src/Ws/Writing.antt =====
-- What `poll_write` of crates/relay-server/src/ws.rs puts into the WebSocket, and what a bridge at
-- the other end reads from it.
use mathlib.Core.List.{append_assoc, append-nil}
use ch_relay.Prelude.{
  ℕ, ◌≡◌, refl, sym, ap, ◌∙◌, List, [], ◌∷◌, ◌++◌, length, take, All, ◌<◌, ◌≢◌, arith, map,
}
use ch_relay.Bytes.{Bytes}
use ch_relay.Ws.{
  Frame, binary, message, ended, WsByteStream, new_stream, Sink, takes, refuses, not_ready,
  WritePoll, wrote, write_failed, write_pending, poll_write,
}
use ch_relay.Ws.Reading.{payload, ending, unfinished, at_end, waits, read_each, read_each_lem}

-- The bytes of a buffer that a writer is told to be written.
abbrev pub accepted : Bytes → WritePoll → Bytes
accepted buf (wrote n) = take n buf
accepted buf write_failed = []
accepted buf write_pending = []

-- A writer that goes on whatever it is told: the bridge, and the bytes that were accepted.
unfoldable pub write_each : List (Sink × Bytes) → WsByteStream → WsByteStream × Bytes
unfolding poll_write
write_each [] s = (s, [])
write_each ((sink, buf) ∷ calls) s =
    let (result, s') = poll_write sink buf s in
    let (s'', out) = write_each calls s' in (s'', accepted buf result ++ out)

abbrev framed : List (Sink × Bytes) → List Frame
framed [] = []
framed ((takes, buf) ∷ calls) = binary buf ∷ framed calls
framed ((refuses, buf) ∷ calls) = framed calls
framed ((not_ready, buf) ∷ calls) = framed calls

take-length : (xs : Bytes) → take (length xs) xs ≡ xs
take-length [] = refl
take-length (x ∷ xs) = ap (λ l. x ∷ l) (take-length xs)

write_each-outgoing :
    (calls : List (Sink × Bytes)) (s : WsByteStream)
    → (write_each calls s).0.outgoing ≡ s.outgoing ++ framed calls
unfolding write_each
write_each-outgoing [] s = sym (append-nil s.outgoing)
write_each-outgoing ((takes, buf) ∷ calls) s =
    write_each-outgoing calls _ ∙ append_assoc s.outgoing (binary buf ∷ []) (framed calls)
write_each-outgoing ((refuses, buf) ∷ calls) s = write_each-outgoing calls s
write_each-outgoing ((not_ready, buf) ∷ calls) s = write_each-outgoing calls s

payload-framed :
    (calls : List (Sink × Bytes)) (s : WsByteStream)
    → payload (map message (framed calls) ++ ended ∷ []) ≡ (write_each calls s).1
unfolding write_each
payload-framed [] s = refl
payload-framed ((takes, buf) ∷ calls) s =
    rw (take-length buf) (ap (λ l. buf ++ l) (payload-framed calls _))
payload-framed ((refuses, buf) ∷ calls) s = payload-framed calls s
payload-framed ((not_ready, buf) ∷ calls) s = payload-framed calls s

ending-framed :
    (calls : List (Sink × Bytes))
    → (ending (map message (framed calls) ++ ended ∷ []) ≡ at_end)
      × (waits (map message (framed calls) ++ ended ∷ []) ≡ 0)
ending-framed [] = (refl, refl)
ending-framed ((takes, buf) ∷ calls) = ending-framed calls
ending-framed ((refuses, buf) ∷ calls) = ending-framed calls
ending-framed ((not_ready, buf) ∷ calls) = ending-framed calls

-- What one bridge is asked to write and accepts, and no more, a bridge at the other end reads, when
-- the WebSocket carries the frames in order and then ends, and the reader asks often enough.
pub read_each-write_each :
    (calls : List (Sink × Bytes)) (rooms : List ℕ)
    → let (s, out) = write_each calls (new_stream []) in
      All (λ room. 0 < room) rooms
      → length out < length rooms
      → read_each rooms (new_stream (map message s.outgoing ++ ended ∷ [])) ≡ (out, at_end)
read_each-write_each calls rooms r b =
    let (s, out) = write_each calls (new_stream []) in
    let sent : s.outgoing ≡ framed calls = write_each-outgoing calls (new_stream []) in
    let whole = payload-framed calls (new_stream []) in
    let (e, w) = ending-framed calls in
    let ne : at_end ≢ unfinished = λ f. absurd (cc) in
    let same =
      read_each_lem rooms (new_stream (map message (framed calls) ++ ended ∷ [])) r
        (λ f. ne (sym e ∙ f)) (omega (arith, b, ap length whole, w)) in
    rw (sent, same, e, whole) refl
