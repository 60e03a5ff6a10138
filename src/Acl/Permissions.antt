-- ===== src/Acl/Permissions.antt =====
-- `Acl::can_publish` and `Acl::can_subscribe` over all of a principal's patterns.
use ch_relay.Prelude.{◌≡◌, true, ◌↔◌, In, any_iff}
use ch_relay.Bytes.{Bytes, split}
use ch_relay.Topic.{slash, topic_matches}
use ch_relay.Topic.Matching.{Matches, StartsWithDollar, HasPlainHead, topic_matches-Matches}
use ch_relay.Acl.{Acl, can_publish, can_subscribe, filter_subsumes}
use ch_relay.Acl.Subsumption.{filter_subsumes_sound}

-- A principal may publish to a topic exactly when one of its patterns matches the topic, by the
-- rules of MQTT.
pub can_publish_iff :
    (acl : Acl) (topic : Bytes)
    → (can_publish acl topic ≡ true) ↔ ((pat : Bytes) × In pat acl.publish × Matches pat topic)
unfolding can_publish
can_publish_iff acl topic = (
  λ h.
      let (pat, i, m) = (any_iff (λ pat. topic_matches pat topic) acl.publish).0 h in
      (pat, i, (topic_matches-Matches pat topic).0 m),
  λ (pat, i, m).
      (any_iff (λ p. topic_matches p topic) acl.publish).1
        (pat, i, (topic_matches-Matches pat topic).1 m),
)

-- A subscription that is let through reaches only topics that one of the principal's patterns
-- matches, as long as the topic does not start with `$` or no pattern starts with a wildcard.
pub can_subscribe-confined :
    (acl : Acl) (filter topic : Bytes)
    → ((pat : Bytes)
        → In pat acl.subscribe
        → StartsWithDollar topic
        → HasPlainHead (split slash pat))
    → can_subscribe acl filter ≡ true
    → topic_matches filter topic ≡ true
    → (pat : Bytes) × In pat acl.subscribe × Matches pat topic
unfolding can_subscribe
can_subscribe-confined acl filter topic ok h m =
    let (pat, i, s) = (any_iff (λ p. filter_subsumes p filter) acl.subscribe).0 h in
    (
      pat,
      i,
      (topic_matches-Matches pat topic).0 (filter_subsumes_sound pat filter topic (ok pat i) s m),
    )
