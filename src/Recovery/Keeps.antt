-- ===== src/Recovery/Keeps.antt =====
-- Publishing, in crates/relay-server/src/hub.rs, keeps the disk in step with the retained messages.
use ch_relay.Prelude.{
  ℕ, ◌≡◌, refl, ◌∙◌, ap, sym, Bool, true, false, not, ◌&&◌, List, [], ◌∷◌, ◌++◌, none, some, map,
  All, Bool-cases, inl, inr, if◌then◌else◌, ltb, nat_eq,
}
use ch_relay.Prelude.Map.{get}
use ch_relay.Bytes.{Bytes, bytes_eq, bytes_beq, is_empty, codes, starts_with}
use ch_relay.Message.{as_u8}
use ch_relay.Retained.{apply}
use ch_relay.Retained.Contents.{retained_for, retained_for-apply}
use ch_relay.Router.{route}
use ch_relay.Session.{DeadMsg, is_dlq_topic}
use ch_relay.Codec.{encode_event}
use ch_relay.Hub.{Hub, write_op}
use ch_relay.Hub.Delivery.{
  Outgoing, publish_ops, retained_message, publish_to_all, deliver_targets, dead_letter,
  dead_letters,
}
use ch_relay.Storage.{PersistOp, append_event}
use ch_relay.Storage.Tables.{Database}
use ch_relay.Storage.Store.{Store, put_retained}
use ch_relay.Storage.Worker.{written, apply_persist_op, run_worker}
use ch_relay.Recovery.{
  on_disk, drained, IsOther, Mirrors, row_message, drained-append, drained-retained,
  on_disk-put_retained, enqueue_all-Mirrors,
}

pub write_ops-IsOther : (snapshots : List (Bytes × Bytes)) → All IsOther (map write_op snapshots)
write_ops-IsOther [] = tt
write_ops-IsOther ((client_id, blob) ∷ snapshots) = (tt, write_ops-IsOther snapshots)

abbrev event_ops : ℕ → ℕ → Outgoing → List PersistOp
event_ops event_log_max ts m =
    if ltb 0 event_log_max && not (starts_with (codes "$") m.topic)
    then append_event (encode_event ts m.topic (as_u8 m.qos) m.payload) event_log_max ∷ []
    else []

event_ops-IsOther :
    (event_log_max ts : ℕ) (m : Outgoing) → All IsOther (event_ops event_log_max ts m)
event_ops-IsOther event_log_max ts m =
    elim (Bool-cases (ltb 0 event_log_max && not (starts_with (codes "$") m.topic))) [
      | inl e ↦ rw e (tt, tt)
      | inr e ↦ rw e tt
    ]

module _ (db : Database) (st : Store db) where
  published-Mirrors :
      (h : Hub) (ts : ℕ) (m : Outgoing) (retain : Bool) (topic : Bytes)
      → on_disk db (drained db st h.queue) topic ≡ retained_for h.retained topic
      → on_disk db (drained db st (h.queue ++ publish_ops h.event_log_max ts m retain)) topic
        ≡ retained_for (if retain then apply h.retained (retained_message m) else h.retained) topic
  unfolding run_worker apply_persist_op written
  published-Mirrors h ts m false topic v =
      ap (λ s. on_disk db s topic) (drained-append db st h.queue (event_ops h.event_log_max ts m))
      ∙ ap (λ t. row_message topic (get topic (db.texts.rows t)))
          (drained-retained db (drained db st h.queue) (event_ops h.event_log_max ts m)
            (event_ops-IsOther h.event_log_max ts m))
      ∙ v
  published-Mirrors h ts m true topic v =
      let before = drained db st h.queue in
      let after = put_retained db before m.topic m.payload m.qos in
      ap (λ s. on_disk db s topic)
        (drained-append db st h.queue
          (PersistOp.put_retained m.topic m.payload m.qos ∷ event_ops h.event_log_max ts m))
      ∙ ap (λ t. row_message topic (get topic (db.texts.rows t)))
          (drained-retained db after (event_ops h.event_log_max ts m)
            (event_ops-IsOther h.event_log_max ts m))
      ∙ on_disk-put_retained db before m.topic m.payload m.qos topic
      ∙ ap
          (λ o.
            if bytes_beq m.topic topic
            then (if is_empty m.payload then none else some (retained_message m))
            else o)
          v
      ∙ sym (retained_for-apply h.retained (retained_message m) topic)

  pub publish_to_all-Mirrors :
      (h : Hub) (now ts : ℕ) (m : Outgoing) (retain : Bool)
      → Mirrors db st h
      → Mirrors db st (publish_to_all h now ts m retain).0
  unfolding publish_to_all
  publish_to_all-Mirrors h now ts m retain v =
      let (by_id, snapshots, delivered) =
        deliver_targets h.is_durable h.retry now m (route h.router m.topic).1 h.sessions.by_id in
      enqueue_all-Mirrors db st
        (record h {
          router = (route h.router m.topic).0;
          retained = if retain then apply h.retained (retained_message m) else h.retained;
          sessions = record h.sessions { by_id = by_id };
          queue =
              if h.is_durable then h.queue ++ publish_ops h.event_log_max ts m retain else h.queue;
        })
        (map write_op snapshots) (write_ops-IsOther snapshots)
        (
          v.0,
          λ topic.
              ap (λ q. on_disk db (drained db st q) topic) (rw (v.0) refl)
              ∙ published-Mirrors h ts m retain topic (v.1 topic),
        )

  pub dead_letter-Mirrors :
      (h : Hub) (now ts : ℕ) (client_id : Bytes) (msg : DeadMsg) (reason : Bytes)
      → Mirrors db st h
      → Mirrors db st (dead_letter h now ts client_id msg reason)
  dead_letter-Mirrors h now ts client_id msg reason v =
      unfold dead_letter in
      elim (Bool-cases (is_dlq_topic msg.message.topic)) [
        | inl e ↦ rw e v
        | inr e ↦ rw e (
            publish_to_all-Mirrors _ now ts _ false
              (enqueue_all-Mirrors db st h (_ ∷ []) (tt, tt) v))
      ]

  pub dead_letters-Mirrors :
      (h : Hub) (now ts : ℕ) (reason : Bytes) (dead : List (Bytes × DeadMsg))
      → Mirrors db st h
      → Mirrors db st (dead_letters h now ts reason dead)
  unfolding dead_letters
  dead_letters-Mirrors h now ts reason [] v = v
  dead_letters-Mirrors h now ts reason ((client_id, msg) ∷ dead) v =
      dead_letters-Mirrors (dead_letter h now ts client_id msg reason) now ts reason dead
        (dead_letter-Mirrors h now ts client_id msg reason v)
