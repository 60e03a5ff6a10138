-- ===== src/Session/PacketIds.antt =====
-- Packet ids are never 0, and every in-flight entry carries one.
use ch_relay.Prelude.{
  All-append, ℕ, ◌≤◌, ◌<◌, ◌≡◌, refl, Bool, true, false, List, [], ◌∷◌, map, Option, some, arith,
  keep, All, Bool-cases, inl, inr, subst,
}
use ch_relay.Bytes.{Bytes}
use ch_relay.Message.{QoS, at_most_once, at_least_once, exactly_once}
use ch_relay.Packet.{Publish, Packet}
use ch_relay.Retry.{RetryConfig}
use ch_relay.Session.{
  Session, Inflight, InflightEntry, qos1, qos2_await_rec, qos2_await_comp, u16_mod, allocate_id,
  send, deliver, deliver_tracked, rearm, retransmit, on_puback, on_pubrec, on_pubcomp,
  receive_first, awaits_rec, new, received_by, entry_of,
}

-- A `NonZeroU16`.
abbrev pub IsPacketId : ℕ → Type 0
IsPacketId n = (1 ≤ n) × (n < u16_mod)

-- A publish in flight is as `make_publish` builds it: with a packet id, at the QoS of its state, not
-- marked as a duplicate and with no user property.
pub record IsTracked (qos : QoS) (p : Publish) : Type 0 where
  pub id : ℕ
  pub has_id : p.packet_id ≡ some id
  pub is_id : IsPacketId id
  pub at_qos : p.qos ≡ qos
  pub original : p.dup ≡ false
  pub plain : p.user_properties ≡ []

abbrev pub IsState : Inflight → Type 0
IsState (qos1 p) = IsTracked at_least_once p
IsState (qos2_await_rec p) = IsTracked exactly_once p
IsState (qos2_await_comp pid) = IsPacketId pid

abbrev pub IsEntry : InflightEntry → Type 0
IsEntry e = IsState e.state

pub record IsValid (s : Session) : Type 0 where
  pub counter : IsPacketId s.next_id
  pub entries : All IsEntry s.inflight

pub new-IsValid :
    (client : Bytes) (tx : Option (List Packet)) (expiry generation : ℕ)
    → IsValid (new client tx expiry generation)
new-IsValid client tx expiry generation = record { counter = omega arith; entries = tt }

All-keep : {A : Type 0} (P : A → Type 0) (q : A → Bool) (xs : List A) → All P xs → All P (keep q xs)
All-keep P q [] h = tt
All-keep P q (x ∷ xs) h = elim (Bool-cases (q x)) [
  | inl e ↦ rw e (h.0, All-keep P q xs h.1)
  | inr e ↦ rw e (All-keep P q xs h.1)
]

module _ (s : Session) (v : IsValid s) where
  -- The id that is handed out can stand in a packet, and so can the next one.
  pub allocate_id-IsPacketId : IsPacketId (allocate_id s).1 × IsPacketId (allocate_id s).0.next_id
  unfolding allocate_id
  allocate_id-IsPacketId = (v.counter, (ground arith, ground arith))

  deliver_tracked-IsValid :
      (topic payload : Bytes) (qos : QoS) (retain : Bool) (now : ℕ) (cfg : RetryConfig)
      → ((p : Publish) → IsTracked qos p → IsState (entry_of qos p))
      → IsValid (deliver_tracked s topic payload qos retain now cfg)
  unfolding deliver_tracked
  deliver_tracked-IsValid topic payload qos retain now cfg state = record {
    counter = allocate_id-IsPacketId.1;
    entries = All-append IsEntry s.inflight _ v.entries (
        state _ (record {
          id = s.next_id;
          has_id = refl;
          is_id = v.counter;
          at_qos = refl;
          original = refl;
          plain = refl;
        }));
  }

  pub deliver-IsValid :
      (topic payload : Bytes) (qos : QoS) (retain : Bool) (now : ℕ) (cfg : RetryConfig)
      → IsValid (deliver s topic payload qos retain now cfg)
  unfolding deliver
  deliver-IsValid topic payload at_most_once retain now cfg = record {
    counter = v.counter;
    entries = v.entries;
  }
  deliver-IsValid topic payload at_least_once retain now cfg =
      deliver_tracked-IsValid topic payload at_least_once retain now cfg (λ p t. t)
  deliver-IsValid topic payload exactly_once retain now cfg =
      deliver_tracked-IsValid topic payload exactly_once retain now cfg (λ p t. t)

  pub on_puback-IsValid : (pid : ℕ) → IsValid (on_puback s pid)
  unfolding on_puback
  on_puback-IsValid pid = record {
    counter = v.counter;
    entries = All-keep IsEntry _ s.inflight v.entries;
  }

  pub on_pubcomp-IsValid : (pid : ℕ) → IsValid (on_pubcomp s pid)
  unfolding on_pubcomp
  on_pubcomp-IsValid pid = record {
    counter = v.counter;
    entries = All-keep IsEntry _ s.inflight v.entries;
  }

  rearm-IsEntry :
      (now : ℕ) (cfg : RetryConfig) (es : List InflightEntry)
      → All IsEntry es
      → All IsEntry (map (rearm now cfg) es)
  rearm-IsEntry now cfg [] h = tt
  rearm-IsEntry now cfg (e ∷ es) h = (h.0, rearm-IsEntry now cfg es h.1)

  pub retransmit-IsValid : (now : ℕ) (cfg : RetryConfig) → IsValid (retransmit s now cfg)
  unfolding retransmit
  retransmit-IsValid now cfg = record {
    counter = v.counter;
    entries = rearm-IsEntry now cfg s.inflight v.entries;
  }

received_id :
    (pid : ℕ) (state : Inflight) → IsState state → received_by pid state ≡ true → IsPacketId pid
received_id pid (qos1 p) i h = absurd (ground arith)
received_id pid (qos2_await_comp x) i h = absurd (ground arith)
received_id pid (qos2_await_rec p) i h =
    let e : p.packet_id ≡ some i.id = i.has_id in
    let k : i.id ≡ pid = ground arith in subst IsPacketId k i.is_id

receive_first-IsEntry :
    (pid : ℕ) (es : List InflightEntry) → All IsEntry es → All IsEntry (receive_first pid es)
unfolding receive_first
receive_first-IsEntry pid [] h = tt
receive_first-IsEntry pid (e ∷ es) h = elim (Bool-cases (received_by pid e.state)) [
  | inl k ↦ rw k (received_id pid e.state h.0 k, h.1)
  | inr k ↦ rw k (h.0, receive_first-IsEntry pid es h.1)
]

pub on_pubrec-IsValid : (s : Session) → IsValid s → (pid : ℕ) → IsValid (on_pubrec s pid)
unfolding on_pubrec
on_pubrec-IsValid s v pid = elim (Bool-cases (awaits_rec pid s.inflight)) [
  | inl e ↦
      rw e
        (record { counter = v.counter; entries = receive_first-IsEntry pid s.inflight v.entries })
  | inr e ↦ rw e (ground arith)
]

-- No operation gives a session another client id.
pub deliver-client_id :
    (s : Session) (topic payload : Bytes) (q : QoS) (retain : Bool) (now : ℕ) (cfg : RetryConfig)
    → (deliver s topic payload q retain now cfg).client_id ≡ s.client_id
unfolding deliver deliver_tracked send allocate_id
deliver-client_id s topic payload at_most_once retain now cfg = refl
deliver-client_id s topic payload at_least_once retain now cfg = refl
deliver-client_id s topic payload exactly_once retain now cfg = refl

pub on_pubrec-client_id : (s : Session) (pid : ℕ) → (on_pubrec s pid).client_id ≡ s.client_id
unfolding on_pubrec send
on_pubrec-client_id s pid = ground arith

pub deliver-expiry_secs :
    (s : Session) (topic payload : Bytes) (q : QoS) (retain : Bool) (now : ℕ) (cfg : RetryConfig)
    → (deliver s topic payload q retain now cfg).expiry_secs ≡ s.expiry_secs
unfolding deliver deliver_tracked send allocate_id
deliver-expiry_secs s topic payload at_most_once retain now cfg = refl
deliver-expiry_secs s topic payload at_least_once retain now cfg = refl
deliver-expiry_secs s topic payload exactly_once retain now cfg = refl

pub on_pubrec-expiry_secs : (s : Session) (pid : ℕ) → (on_pubrec s pid).expiry_secs ≡ s.expiry_secs
unfolding on_pubrec send
on_pubrec-expiry_secs s pid = ground arith
