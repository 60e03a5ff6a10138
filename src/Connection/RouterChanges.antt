-- ===== src/Connection/RouterChanges.antt =====
-- Which subscriptions a step of a SUBSCRIBE in crates/relay-server/src/connection.rs may change.
use ch_relay.Prelude.{◌≡◌, ◌∙◌, refl, ◌⊎◌, true, ◌&&◌, arith, Bool-cases, inl, inr, subst}
use ch_relay.Bytes.{Bytes, bytes_beq, bytes_beq_iff}
use ch_relay.Topic.{TopicFilter}
use ch_relay.Message.{QoS}
use ch_relay.Acl.{Acl, can_subscribe}
use ch_relay.Router.{Router, ClientId, subscribe, subscribe_shared}
use ch_relay.Router.Granted.{granted-subscribe, shared_granted-subscribe_shared}
use ch_relay.Router.GrantLists.{granted, shared_granted}
use ch_relay.Prelude.{nat_eq, ==_iff, ◌==◌}

-- The subscriptions of one router and of another differ only in those of this client to filters that
-- its permissions cover.
pub record ChangesOnly (id : ClientId) (acl : Acl) (r r' : Router) : Type 0 where
  pub direct :
      (d : ClientId) (f : Bytes)
      → (granted r' d f ≡ granted r d f) ⊎ ((d ≡ id) × (can_subscribe acl f ≡ true))
  pub within :
      (group : Bytes) (d : ClientId) (f : Bytes)
      → (shared_granted r' group d f ≡ shared_granted r group d f)
        ⊎ ((d ≡ id) × (can_subscribe acl f ≡ true))

pub same-ChangesOnly : (id : ClientId) (acl : Acl) (r : Router) → ChangesOnly id acl r r
same-ChangesOnly id acl r = record { direct = λ d f. inl refl; within = λ group d f. inl refl }

either_trans : {A : Type 0} {x y z : A} {P : Type 0} → (y ≡ x) ⊎ P → (z ≡ y) ⊎ P → (z ≡ x) ⊎ P
either_trans (inl e) (inl f) = inl (f ∙ e)
either_trans (inl e) (inr p) = inr p
either_trans (inr p) q = inr p

pub trans-ChangesOnly :
    {id : ClientId} {acl : Acl} (r s t : Router)
    → ChangesOnly id acl r s
    → ChangesOnly id acl s t
    → ChangesOnly id acl r t
trans-ChangesOnly r s t a b = record {
  direct = λ d f. either_trans (a.direct d f) (b.direct d f);
  within = λ group d f. either_trans (a.within group d f) (b.within group d f);
}

pub subscribe-ChangesOnly :
    (r : Router) (id : ClientId) (acl : Acl) (tf : TopicFilter) (q : QoS)
    → can_subscribe acl tf.as_str ≡ true
    → ChangesOnly id acl r (subscribe r id tf q)
subscribe-ChangesOnly r id acl tf q a = record {
  direct = λ d f. elim (Bool-cases (id == d && bytes_beq tf.as_str f)) [
    | inl e ↦ inr (
      ground (arith, e, ==_iff id d),
      subst (λ g. can_subscribe acl g ≡ true) ((bytes_beq_iff tf.as_str f).0 (ground (arith, e))) a,
    )
    | inr e ↦ inl (ground (arith, granted-subscribe r id tf q d f, e))
  ];
  within = λ group d f. inl (unfold subscribe shared_granted in refl);
}

pub subscribe_shared-ChangesOnly :
    (r : Router) (group : Bytes) (id : ClientId) (acl : Acl) (tf : TopicFilter) (q : QoS)
    → can_subscribe acl tf.as_str ≡ true
    → ChangesOnly id acl r (subscribe_shared r group id tf q)
subscribe_shared-ChangesOnly r group id acl tf q a = record {
  direct = λ d f. inl (unfold subscribe_shared granted in refl);
  within = λ other d f.
      elim (Bool-cases (bytes_beq group other && (id == d && bytes_beq tf.as_str f))) [
        | inl e ↦ inr (
          ground (arith, e, ==_iff id d),
          subst (λ g. can_subscribe acl g ≡ true)
              ((bytes_beq_iff tf.as_str f).0 (ground (arith, e))) a,
        )
        | inr e ↦ inl (ground (arith, shared_granted-subscribe_shared r group id tf q other d f, e))
      ];
}
