-- ===== src/Recovery/Rewriting.antt =====
-- One client's entry in the session table of crates/relay-server/src/hub.rs, and the write for it.
use ch_relay.Prelude.{
  ℕ, ◌≡◌, refl, sym, ◌∙◌, ap, false, [], ◌∷◌, Option, none, some, Bool-cases, inl, inr,
  if◌then◌else◌, ltb, nat_eq,
}
use ch_relay.Prelude.Map.{Map, get}
use ch_relay.Bytes.{Bytes, bytes_eq, bytes_beq, bytes_beq_iff}
use ch_relay.Router.{ClientId}
use ch_relay.Session.{Session}
use ch_relay.Storage.{PersistOp, put_session, remove_session}
use ch_relay.Recovery.Expiries.{durable_expiry, session_expiry, expiry_in, kept_in, expiry_after}

abbrev pub kept_at : Map ClientId Session → Option ClientId → Option ℕ
kept_at by_id none = none
kept_at by_id (some i) = expiry_in i by_id

-- The write of `persist_meta`.
abbrev pub meta_op : Bytes → ℕ → PersistOp
meta_op client_id expiry_secs =
    if ltb 0 expiry_secs then put_session client_id expiry_secs else remove_session client_id

pub meta_lem :
    (client_id : Bytes) (expiry_secs : ℕ) (c : Bytes) (o : Option ℕ)
    → expiry_after (meta_op client_id expiry_secs ∷ []) c o
      ≡ (if bytes_beq client_id c then durable_expiry expiry_secs else o)
meta_lem client_id expiry_secs c o = elim (Bool-cases (ltb 0 expiry_secs)) [
  | inl e ↦ rw e refl
  | inr e ↦ rw e refl
]

-- One client gets a session under an id, and all others keep theirs.
module _ (id_of id_of' : Map Bytes ClientId) (by_id by_id' : Map ClientId Session) where
  pub rewritten :
      (client_id : Bytes) (n : ClientId) (s : Session)
      → get client_id id_of' ≡ some n
      → get n by_id' ≡ some s
      → ((c : Bytes) → bytes_beq client_id c ≡ false → get c id_of' ≡ get c id_of)
      → ((c : Bytes) (i : ClientId)
          → bytes_beq client_id c ≡ false
          → get c id_of ≡ some i
          → get i by_id' ≡ get i by_id)
      → (c : Bytes)
      → kept_in id_of' by_id' c
        ≡ (if bytes_beq client_id c then durable_expiry s.expiry_secs else kept_in id_of by_id c)
  rewritten client_id n s e g same others c = elim (Bool-cases (bytes_beq client_id c)) [
    | inl p ↦
        let here : get c id_of' ≡ some n =
          ap (λ d. get d id_of') (sym ((bytes_beq_iff client_id c).0 p)) ∙ e in
        rw p (at_id (get c id_of') here)
    | inr p ↦ rw p (elsewhere (get c id_of') (get c id_of) (same c p) (λ i h. others c i p h))
  ]
    where
      at_id :
          (o : Option ClientId)
          → o ≡ some n
          → elim o [ none ↦ none | some i ↦ expiry_in i by_id' ] ≡ durable_expiry s.expiry_secs
      at_id none h = absurd (cc)
      at_id (some i) h = let k : i ≡ n = cc in ap (λ j. expiry_in j by_id') k ∙ ap session_expiry g

      elsewhere :
          (o' o : Option ClientId)
          → o' ≡ o
          → ((i : ClientId) → o ≡ some i → get i by_id' ≡ get i by_id)
          → elim o' [ none ↦ none | some i ↦ expiry_in i by_id' ]
            ≡ elim o [ none ↦ none | some i ↦ expiry_in i by_id ]
      elsewhere none none h k = refl
      elsewhere none (some i) h k = absurd (cc)
      elsewhere (some j) none h k = absurd (cc)
      elsewhere (some j) (some i) h k =
          let q : j ≡ i = cc in ap (λ x. expiry_in x by_id') q ∙ ap session_expiry (k i refl)
