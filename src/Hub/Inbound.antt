-- ===== src/Hub/Inbound.antt =====
-- How the hub of crates/relay-server/src/hub.rs tells inbound QoS 2 packets apart.
use ch_relay.Prelude.{
  ℕ, ◌≡◌, ◌∙◌, refl, ap, sym, Bool, true, not, ◌&&◌, ◌||◌, List, [], ◌∷◌, some, ◌==◌, arith,
  Bool-cases, Option-cases, inl, inr, nat_eq, any, ==_iff,
}
use ch_relay.Prelude.Map.{get, get-insert}
use ch_relay.Router.{ClientId}
use ch_relay.Session.{Session}
use ch_relay.Hub.{Hub}
use ch_relay.Hub.Requests.{inbound_qos2_seen, inbound_qos2_release, insert_pid, remove_pid}

-- A QoS 2 PUBLISH, or a PUBREL, of any client with any id.
pub data Arrival : Type 0 where
  publish_of pubrel_of : ClientId → ℕ → Arrival

abbrev pub arrives : Hub → Arrival → Hub
arrives h (publish_of id pid) = (inbound_qos2_seen h id pid).0
arrives h (pubrel_of id pid) = inbound_qos2_release h id pid

pub run_arrivals : Hub → List Arrival → Hub
run_arrivals h [] = h
run_arrivals h (a ∷ arrivals) = run_arrivals (arrives h a) arrivals

-- Whether the client has published under the id, and not released it since.
abbrev pub outstanding_after : ClientId → ℕ → Bool → Arrival → Bool
outstanding_after id pid before (publish_of i p) = before || ((i == id) && (p == pid))
outstanding_after id pid before (pubrel_of i p) = before && not ((i == id) && (p == pid))

abbrev pub is_outstanding : ClientId → ℕ → Bool → List Arrival → Bool
is_outstanding id pid before [] = before
is_outstanding id pid before (a ∷ arrivals) =
    is_outstanding id pid (outstanding_after id pid before a) arrivals

abbrev pub holds_pid : ℕ → List ℕ → Bool
holds_pid pid = any (λ x. x == pid)

holds_pid-insert_pid :
    (pid p : ℕ) (seen : List ℕ)
    → holds_pid pid (insert_pid p seen).0 ≡ (holds_pid pid seen || (p == pid))
holds_pid-insert_pid pid p seen = elim (Bool-cases (holds_pid p seen)) [
  | inl e ↦ elim (Bool-cases (p == pid)) [
    | inl q ↦
        let same : holds_pid pid seen ≡ true =
          ap (λ x. holds_pid x seen) (sym ((==_iff p pid).0 q)) ∙ e in
        rw (e, q, same) refl
    | inr q ↦ rw (e, q) (ground arith)
  ]
  | inr e ↦ rw e (ground arith)
]

holds_pid-remove_pid :
    (pid p : ℕ) (seen : List ℕ)
    → holds_pid pid (remove_pid p seen) ≡ (holds_pid pid seen && not (p == pid))
holds_pid-remove_pid pid p [] = refl
holds_pid-remove_pid pid p (x ∷ seen) =
    ground (arith, holds_pid-remove_pid pid p seen, ==_iff x p, ==_iff x pid, ==_iff p pid)

-- The client has a session, and the session holds the id or does not.
record Holding (h : Hub) (id : ClientId) (pid : ℕ) (outstanding : Bool) : Type 0 where
  session : Session
  is_there : get id h.sessions.by_id ≡ some session
  holds : holds_pid pid session.incoming_qos2 ≡ outstanding

publish_of-Holding :
    (h : Hub) (id i : ClientId) (pid p : ℕ) (b : Bool)
    → Holding h id pid b
    → Holding (inbound_qos2_seen h i p).0 id pid (b || ((i == id) && (p == pid)))
unfolding inbound_qos2_seen
publish_of-Holding h id i pid p b v = elim (Option-cases (get i h.sessions.by_id)) [
  | inl e ↦
      rw (e, inbound_qos2_seen)
        (record {
          session = v.session;
          is_there = v.is_there;
          holds = ground (arith, v.holds, e, v.is_there, ==_iff i id);
        })
  | inr (t, e) ↦
      let t' = record t { incoming_qos2 = (insert_pid p t.incoming_qos2).0 } in
      let there = get-insert i id t' h.sessions.by_id in
      elim (Bool-cases (i == id)) [
        | inl q ↦
            let same : t ≡ v.session = ground (arith, e, v.is_there, ==_iff i id, q) in
            rw (e, q, inbound_qos2_seen)
              (record {
                session = t';
                is_there = there ∙ rw q refl;
                holds =
                    holds_pid-insert_pid pid p t.incoming_qos2
                    ∙ ap (λ x. holds_pid pid x || (p == pid))
                        (ap (λ (s : Session). s.incoming_qos2) same)
                    ∙ rw v.holds refl;
              })
        | inr q ↦
            rw (e, q, inbound_qos2_seen)
              (record {
                session = v.session;
                is_there = there ∙ rw q v.is_there;
                holds = v.holds ∙ ground arith;
              })
      ]
]

pubrel_of-Holding :
    (h : Hub) (id i : ClientId) (pid p : ℕ) (b : Bool)
    → Holding h id pid b
    → Holding (inbound_qos2_release h i p) id pid (b && not ((i == id) && (p == pid)))
unfolding inbound_qos2_release
pubrel_of-Holding h id i pid p b v = elim (Option-cases (get i h.sessions.by_id)) [
  | inl e ↦
      rw (e, inbound_qos2_release)
        (record {
          session = v.session;
          is_there = v.is_there;
          holds = ground (arith, v.holds, e, v.is_there, ==_iff i id);
        })
  | inr (t, e) ↦
      let t' = record t { incoming_qos2 = remove_pid p t.incoming_qos2 } in
      let there = get-insert i id t' h.sessions.by_id in
      elim (Bool-cases (i == id)) [
        | inl q ↦
            let same : t ≡ v.session = ground (arith, e, v.is_there, ==_iff i id, q) in
            rw (e, q, inbound_qos2_release)
              (record {
                session = t';
                is_there = there ∙ rw q refl;
                holds =
                    holds_pid-remove_pid pid p t.incoming_qos2
                    ∙ ap (λ x. holds_pid pid x && not (p == pid))
                        (ap (λ (s : Session). s.incoming_qos2) same)
                    ∙ rw v.holds refl;
              })
        | inr q ↦
            rw (e, q, inbound_qos2_release)
              (record {
                session = v.session;
                is_there = there ∙ rw q v.is_there;
                holds = v.holds ∙ ground arith;
              })
      ]
]

run_arrivals-Holding :
    (h : Hub) (id : ClientId) (pid : ℕ) (b : Bool) (arrivals : List Arrival)
    → Holding h id pid b
    → Holding (run_arrivals h arrivals) id pid (is_outstanding id pid b arrivals)
unfolding run_arrivals
run_arrivals-Holding h id pid b [] v = v
run_arrivals-Holding h id pid b (publish_of i p ∷ arrivals) v =
    run_arrivals-Holding (inbound_qos2_seen h i p).0 id pid _ arrivals
      (publish_of-Holding h id i pid p b v)
run_arrivals-Holding h id pid b (pubrel_of i p ∷ arrivals) v =
    run_arrivals-Holding (inbound_qos2_release h i p) id pid _ arrivals
      (pubrel_of-Holding h id i pid p b v)

seen_lem :
    (h : Hub) (id : ClientId) (pid : ℕ) (b : Bool)
    → Holding h id pid b
    → (inbound_qos2_seen h id pid).1 ≡ not b
unfolding inbound_qos2_seen
seen_lem h id pid b v = rw (v.is_there, inbound_qos2_seen, v.holds) (ground arith)

-- For a client with a session, and after any QoS 2 publishes and releases of any clients with any
-- ids, a QoS 2 packet is new exactly when its id is not outstanding: its client has not published
-- under that id, before or among these, without a release of it since.
pub inbound_qos2_lem :
    (h : Hub) (id : ClientId) (s : Session) (pid : ℕ) (arrivals : List Arrival)
    → get id h.sessions.by_id ≡ some s
    → (inbound_qos2_seen (run_arrivals h arrivals) id pid).1
      ≡ not (is_outstanding id pid (holds_pid pid s.incoming_qos2) arrivals)
inbound_qos2_lem h id s pid arrivals e =
    seen_lem _ id pid _ (
      run_arrivals-Holding h id pid _ arrivals (record { session = s; is_there = e; holds = refl }))
