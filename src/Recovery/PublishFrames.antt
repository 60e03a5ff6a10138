-- ===== src/Recovery/PublishFrames.antt =====
-- Publishing, in crates/relay-server/src/hub.rs, leaves the expiry intervals alone.
use ch_relay.Prelude.{
  ℕ, refl, ◌∙◌, Bool, false, not, ◌&&◌, List, [], ◌∷◌, ◌++◌, Option, none, some, map, All,
  Bool-cases, Option-cases, inl, inr, if◌then◌else◌, ltb, nat_eq,
}
use ch_relay.Prelude.Map.{Map, get, insert}
use ch_relay.Bytes.{Bytes, codes, starts_with}
use ch_relay.Message.{QoS, min}
use ch_relay.Retry.{RetryConfig}
use ch_relay.Router.{ClientId, route}
use ch_relay.Retained.{apply}
use ch_relay.Session.{Session, DeadMsg, deliver, is_dlq_topic}
use ch_relay.Storage.{put_retained}
use ch_relay.Hub.{Hub, enqueue_all, write_op, subscription_ops}
use ch_relay.Hub.Delivery.{
  Outgoing, deliver_targets, publish_ops, publish_to_all, retained_message, dead_letter,
  dead_letters,
}
use ch_relay.Hub.Requests.{unsubscription_ops}
use ch_relay.Session.PacketIds.{deliver-expiry_secs}
use ch_relay.Recovery.Expiries.{
  IsUnrelated, SameExpiries, insert-SameExpiries, Frame, refl-Frame, trans-Frame, table-Frame,
  All-both,
}

pub write_ops-IsUnrelated :
    (snapshots : List (Bytes × Bytes)) → All IsUnrelated (map write_op snapshots)
write_ops-IsUnrelated [] = tt
write_ops-IsUnrelated ((c, blob) ∷ snapshots) = (λ c o. refl, write_ops-IsUnrelated snapshots)

publish_ops-IsUnrelated :
    (event_log_max ts : ℕ) (m : Outgoing) (retain : Bool)
    → All IsUnrelated (publish_ops event_log_max ts m retain)
publish_ops-IsUnrelated event_log_max ts m retain =
    All-both (if retain then put_retained m.topic m.payload m.qos ∷ [] else []) _
      (elim (Bool-cases retain) [ inl e ↦ rw e (λ c o. refl, tt) | inr e ↦ rw e tt ])
      (elim (Bool-cases (ltb 0 event_log_max && not (starts_with (codes "$") m.topic))) [
        | inl e ↦ rw e (λ c o. refl, tt)
        | inr e ↦ rw e tt
      ])

pub subscription_ops-IsUnrelated :
    (raw : Bytes) (q : QoS) (o : Option Bytes) → All IsUnrelated (subscription_ops raw q o)
subscription_ops-IsUnrelated raw q none = tt
subscription_ops-IsUnrelated raw q (some c) = (λ c o. refl, tt)

pub unsubscription_ops-IsUnrelated :
    (raw : Bytes) (o : Option Bytes) → All IsUnrelated (unsubscription_ops raw o)
unsubscription_ops-IsUnrelated raw none = tt
unsubscription_ops-IsUnrelated raw (some c) = (λ c o. refl, tt)

deliver_targets-SameExpiries :
    (durable : Bool) (cfg : RetryConfig) (now : ℕ) (m : Outgoing) (targets : List (ClientId × QoS))
    (table : Map ClientId Session)
    → SameExpiries table (deliver_targets durable cfg now m targets table).0
unfolding deliver_targets
deliver_targets-SameExpiries durable cfg now m [] table i = refl
deliver_targets-SameExpiries durable cfg now m ((id, granted) ∷ targets) table i =
    elim (Option-cases (get id table)) [
      | inl e ↦
          rw (e, deliver_targets) (deliver_targets-SameExpiries durable cfg now m targets table i)
      | inr (s, e) ↦
          let q = min m.qos granted in
          let s' = deliver s m.topic m.payload q false now cfg in
          rw (e, deliver_targets)
            (deliver_targets-SameExpiries durable cfg now m targets (insert id s' table) i
              ∙ insert-SameExpiries id s s' table e
                  (deliver-expiry_secs s m.topic m.payload q false now cfg) i)
    ]

pub publish_to_all-Frame :
    (h : Hub) (now ts : ℕ) (m : Outgoing) (retain : Bool)
    → Frame h (publish_to_all h now ts m retain).0
unfolding publish_to_all
publish_to_all-Frame h now ts m retain =
    let (by_id, snapshots, delivered) =
      deliver_targets h.is_durable h.retry now m (route h.router m.topic).1 h.sessions.by_id in
    let k : Hub = record h {
      router = (route h.router m.topic).0;
      retained = if retain then apply h.retained (retained_message m) else h.retained;
      sessions = record h.sessions { by_id = by_id };
      queue = if h.is_durable then h.queue ++ publish_ops h.event_log_max ts m retain else h.queue;
    } in
    trans-Frame h k _
      (table-Frame h k (publish_ops h.event_log_max ts m retain) refl refl
        (publish_ops-IsUnrelated h.event_log_max ts m retain) refl
        (deliver_targets-SameExpiries h.is_durable h.retry now m (route h.router m.topic).1
          h.sessions.by_id))
      (table-Frame k _ (map write_op snapshots) refl refl (write_ops-IsUnrelated snapshots) refl
        (λ i. refl))

dead_letter-Frame :
    (h : Hub) (now ts : ℕ) (client_id : Bytes) (msg : DeadMsg) (reason : Bytes)
    → Frame h (dead_letter h now ts client_id msg reason)
dead_letter-Frame h now ts client_id msg reason =
    unfold dead_letter in
    elim (Bool-cases (is_dlq_topic msg.message.topic)) [
      | inl e ↦ rw e (refl-Frame h)
      | inr e ↦ rw e (
          trans-Frame h (enqueue_all h (_ ∷ [])) _
            (table-Frame h _ (_ ∷ []) refl refl (λ c o. refl, tt) refl (λ i. refl))
            (publish_to_all-Frame _ now ts _ false))
    ]

pub dead_letters-Frame :
    (h : Hub) (now ts : ℕ) (reason : Bytes) (dead : List (Bytes × DeadMsg))
    → Frame h (dead_letters h now ts reason dead)
unfolding dead_letters
dead_letters-Frame h now ts reason [] = refl-Frame h
dead_letters-Frame h now ts reason ((client_id, msg) ∷ dead) =
    trans-Frame h (dead_letter h now ts client_id msg reason) _
      (dead_letter-Frame h now ts client_id msg reason)
      (dead_letters-Frame (dead_letter h now ts client_id msg reason) now ts reason dead)
