-- ===== src/Ws/Reading.antt =====
-- What `poll_read` of crates/relay-server/src/ws.rs hands out: the payloads of the binary frames, as
-- one stream of bytes.
use mathlib.Core.List.{append_assoc}
use ch_relay.Prelude.{
  ℕ, zero, suc, ◌≡◌, refl, ap, ◌∙◌, List, [], ◌∷◌, ◌++◌, length, take, drop, All, ◌<◌, ◌⊎◌, inl,
  inr, ◌≢◌, ◌+◌, arith, length-append,
}
use ch_relay.Bytes.{Bytes}
use ch_relay.Ws.{
  binary, close, other_frame, Incoming, message, broken, ended, waiting, WsByteStream, ReadPoll,
  ready, failed, pending, read_loop, poll_read,
}

-- The stream that the frames to come make up: the payloads of the binary ones, one after the other,
-- up to a close, an error or the end of the connection.
abbrev pub payload : List Incoming → Bytes
payload [] = []
payload (message (binary bytes) ∷ ws) = bytes ++ payload ws
payload (message close ∷ ws) = []
payload (message other_frame ∷ ws) = payload ws
payload (broken ∷ ws) = []
payload (ended ∷ ws) = []
payload (waiting ∷ ws) = payload ws

-- All bytes that are still to be read.
abbrev pub unread : WsByteStream → Bytes
unread s = s.read_buf ++ payload s.incoming

-- How a stream goes on once its bytes are read.
pub data Ending : Type 0 where
  unfinished at_end with_error : Ending

abbrev pub ending : List Incoming → Ending
ending [] = unfinished
ending (message (binary bytes) ∷ ws) = ending ws
ending (message close ∷ ws) = at_end
ending (message other_frame ∷ ws) = ending ws
ending (broken ∷ ws) = with_error
ending (ended ∷ ws) = at_end
ending (waiting ∷ ws) = ending ws

-- How often a reader will be told to wait.
abbrev pub waits : List Incoming → ℕ
waits [] = 0
waits (message (binary bytes) ∷ ws) = waits ws
waits (message close ∷ ws) = 0
waits (message other_frame ∷ ws) = waits ws
waits (broken ∷ ws) = 0
waits (ended ∷ ws) = 0
waits (waiting ∷ ws) = suc (waits ws)

-- What one poll yields, given the bytes that were left, how the stream ends and how often it waits.
abbrev Yields : Bytes → Ending → ℕ → ReadPoll → Bytes → Ending → ℕ → Type 0
Yields left e w (ready []) left' e' w' = (left ≡ []) × (e ≡ at_end)
Yields left e w (ready (b ∷ bs)) left' e' w' = (left ≡ (b ∷ bs) ++ left') × (e ≡ e') × (w ≡ w')
Yields left e w failed left' e' w' = (left ≡ []) × (e ≡ with_error)
Yields left e w pending left' e' w' = (left ≡ left') × (e ≡ e') × ((e ≡ unfinished) ⊎ (w ≡ suc w'))

take-drop : {A : Type 0} (k : ℕ) (xs : List A) → xs ≡ take k xs ++ drop k xs
take-drop zero xs = refl
take-drop (suc k) [] = refl
take-drop (suc k) (x ∷ xs) = ap (λ l. x ∷ l) (take-drop k xs)

-- A frame without bytes is passed over, and is not taken for the end.
read_loop_lem :
    (k : ℕ) (buf : Bytes) (ws : List Incoming)
    → let (result, buf', ws') = read_loop (suc k) buf ws in
      Yields
        (buf ++ payload ws)
        (ending ws)
        (waits ws)
        result
        (buf' ++ payload ws')
        (ending ws')
        (waits ws')
unfolding read_loop
read_loop_lem k (b ∷ bs) ws = (
  ap (λ l. b ∷ (l ++ payload ws)) (take-drop k bs)
      ∙ ap (λ l. b ∷ l) (append_assoc (take k bs) (drop k bs) (payload ws)),
  refl,
  refl,
)
read_loop_lem k [] [] = (refl, refl, inl refl)
read_loop_lem k [] (message (binary bytes) ∷ ws) = read_loop_lem k bytes ws
read_loop_lem k [] (message close ∷ ws) = (refl, refl)
read_loop_lem k [] (message other_frame ∷ ws) = read_loop_lem k [] ws
read_loop_lem k [] (broken ∷ ws) = (refl, refl)
read_loop_lem k [] (ended ∷ ws) = (refl, refl)
read_loop_lem k [] (waiting ∷ ws) = (refl, refl, inr refl)

abbrev then_read : ReadPoll → Bytes × Ending → Bytes × Ending
then_read (ready []) rest = ([], at_end)
then_read (ready (b ∷ bs)) (out, e) = ((b ∷ bs) ++ out, e)
then_read failed rest = ([], with_error)
then_read pending rest = rest

-- A reader that asks again and again, with room for that many bytes, until it is told of the end.
unfoldable pub read_each : List ℕ → WsByteStream → Bytes × Ending
unfolding poll_read
read_each [] s = ([], unfinished)
read_each (room ∷ rooms) s =
    let (result, s') = poll_read room s in then_read result (read_each rooms s')

then_read_lem :
    (n : ℕ) (left : Bytes) (e : Ending) (w : ℕ) (result : ReadPoll) (left' : Bytes) (e' : Ending)
    (w' : ℕ) (rest : Bytes × Ending)
    → Yields left e w result left' e' w'
    → e ≢ unfinished
    → length left + w < suc n
    → (e' ≢ unfinished → length left' + w' < n → rest ≡ (left', e'))
    → then_read result rest ≡ (left, e)
then_read_lem n left e w (ready []) left' e' w' rest (p, q) ne b ih = cc
then_read_lem n left e w (ready (x ∷ xs)) left' e' w' rest (p, q, r) ne b ih =
    let shorter : length left ≡ length (x ∷ xs) + length left' =
      ap length p ∙ length-append {0} (x ∷ xs) left' in
    let k = ih (λ f. ne (q ∙ f)) (omega (arith, b, shorter, r)) in rw (k, p, q) refl
then_read_lem n left e w failed left' e' w' rest (p, q) ne b ih = cc
then_read_lem n left e w pending left' e' w' rest (p, q, inl f) ne b ih = absurd (ne f)
then_read_lem n left e w pending left' e' w' rest (p, q, inr r) ne b ih =
    ih (λ f. ne (q ∙ f)) (omega (arith, b, ap length p, r)) ∙ cc

-- A reader that always has room, and asks once more than there are bytes to be read and times to
-- wait, gets the payloads of all binary frames before the end, and learns of the end or of the error.
pub read_each_lem :
    (rooms : List ℕ) (s : WsByteStream)
    → All (λ room. 0 < room) rooms
    → ending s.incoming ≢ unfinished
    → length (unread s) + waits s.incoming < length rooms
    → read_each rooms s ≡ (unread s, ending s.incoming)
unfolding read_each
read_each_lem [] s r ne b = absurd (omega (arith, b))
read_each_lem (zero ∷ rooms) s (z, r) ne b = absurd (omega (arith, z))
read_each_lem (suc k ∷ rooms) s (z, r) ne b =
    then_read_lem (length rooms) (unread s) _ _ _ _ _ _ _ (read_loop_lem k s.read_buf s.incoming) ne
      b (read_each_lem rooms _ r)
