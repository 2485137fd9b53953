-- ===== src/Network/Announced.antt =====
-- An announce on its way from one supernode to the list of another.
use graft_ng.Shared.{
  ℕ, ◌≡◌, refl, String, Bool, true, Option, none, some, if◌then◌else◌, ◌==◌, string_eq, lookup,
  assign, Option-cases, lookup-assign, lookup-emplace, inl, inr, sym, ◌∙◌, ap, subst, pos,
}
use graft_ng.Tasks.Status.{Status}
use graft_ng.Rta.Crypto.{Crypto, CryptoLaws}
use graft_ng.Rta.Supernode.{
  Supernode, SupernodeAnnounce, new, set_last_update_time, prepare_announce, validate_announce,
  update_from_announce, create_from_announce, sign_message, sign_hash, id_key_as_string,
}
use graft_ng.Rta.Supernode.Announces.{validate_announce-prepare_announce}
use graft_ng.Rta.SupernodeList.{Rng, FullSupernodeList, get, add, add_impl, exists}
use graft_ng.Payments.{Output, Body, load, replied, status_body, announce_body}
use graft_ng.Network.{
  NetworkWorld, NetworkMessages, handle_announce, blank_announce, send_announce, start_announce,
  refresh, busy, handle_supernode_announce, send_supernode_announce_handler, receive_announce,
  update_known, add_unknown, store_request_and_reply,
}

announce_of : Body → Option SupernodeAnnounce
announce_of (announce_body a) = some a
announce_of _ = none

announce_body-injective : {a b : SupernodeAnnounce} → announce_body a ≡ announce_body b → a ≡ b
unfolding announce_of
announce_body-injective {a} e = ap (λ o. elim o [ none ↦ a | some x ↦ x ]) (ap announce_of e)

module _ (c : Crypto) where
  -- A supernode of which an announce has been heard: a new one, or the one that was known.
  unfoldable pub heard : c.PublicKey → Bool → ℕ → Option (Supernode c) → Supernode c
  heard key testnet now none = record (new c "" key testnet) { last_update_time = now }
  heard key testnet now (some sn) = record sn { last_update_time = now }

  module _ (cl : CryptoLaws c) (r : ℕ) where
    announce_sent :
        (sent : ℕ) (s : Supernode c) (o : Output)
        → s.has_secret_key ≡ true
        → c.secret_key_to_public_key s.secret_key ≡ some s.id_key
        → send_announce c r sent Status.none (some s) o ≡ (
          Status.forward,
          some (set_last_update_time c sent s),
          record {
            path = "/json_rpc/rta";
            body =
                announce_body
                  ((prepare_announce c r (blank_announce c) (set_last_update_time c sent s)).0);
          },
        )
    unfolding send_announce start_announce refresh set_last_update_time
    announce_sent sent s o hk hp =
        rw
          ((validate_announce-prepare_announce c cl r (blank_announce c)
            (record s { last_update_time = sent }) hk hp).0)
          refl

    prepared_id :
        (a : SupernodeAnnounce) (s : Supernode c)
        → s.has_secret_key ≡ true
        → (prepare_announce c r a s).0.supernode_public_id ≡ id_key_as_string c s
    unfolding prepare_announce sign_message sign_hash
    prepared_id a s hk = rw hk refl

  module _ (g : Rng) where
    -- The list when the announce has been handled.
    stored : String → c.PublicKey → Bool → ℕ → FullSupernodeList c g → FullSupernodeList c g
    unfolding get heard
    stored id key testnet now l = elim (get c g id l) [
      | none ↦ (add c g (heard key testnet now none) l).0
      | some sn ↦ record l { list = assign id (heard key testnet now (some sn)) l.list }
    ]

    get-stored :
        (id j : String) (key : c.PublicKey) (testnet : Bool) (now : ℕ) (l : FullSupernodeList c g)
        → id ≡ c.key_to_hex key
        → get c g j (stored id key testnet now l)
          ≡ (if id == j then some (heard key testnet now (get c g id l)) else get c g j l)
    unfolding stored get heard add add_impl exists new id_key_as_string
    get-stored id j key testnet now l same = elim (Option-cases (lookup id l.list)) [
      | inl unknown ↦
          rw (stored, get, unknown, sym same, unknown)
            (lookup-emplace id j (heard key testnet now none) l.list unknown)
      | inr (sn, known) ↦
          rw (stored, get, known) (lookup-assign id j (heard key testnet now (some sn)) l.list)
    ]

    module _ (nm : NetworkMessages) where
      announce_handled :
          (input : String) (a : SupernodeAnnounce) (key : c.PublicKey) (testnet : Bool)
          (address : String) (now : ℕ) (l : FullSupernodeList c g) (w : NetworkWorld c g)
          → nm.read_announce input ≡ some a
          → validate_announce c a ≡ some key
          → w.fsl ≡ some l
          → w.has_supernode ≡ true
          → w.cryptonode_rpc_address ≡ some address
          → w.testnet ≡ some testnet
          → handle_supernode_announce c g nm input now w
            ≡ replied Status.ok
                (record w { fsl = some (stored a.supernode_public_id key testnet now l) })
      unfolding handle_supernode_announce receive_announce update_known add_unknown busy get stored
          heard update_from_announce create_from_announce set_last_update_time
      announce_handled input a key testnet address now l w read valid hl hs ha ht =
          elim (Option-cases (lookup a.supernode_public_id l.list)) [
            | inl unknown ↦
                rw
                  (
                    handle_supernode_announce, hl, hs, read, receive_announce, get, unknown, ha, ht,
                    add_unknown, create_from_announce, valid, stored,
                  )
                  refl
            | inr (sn, known) ↦
                rw
                  (
                    handle_supernode_announce, hl, hs, read, receive_announce, get, known,
                    update_known, update_from_announce, valid, stored,
                  )
                  refl
          ]

  module _ (cl : CryptoLaws c) (g : Rng) (nm : NetworkMessages) where
    -- A supernode with a matching key pair forwards its announce to the cryptonode. A receiver that
    -- has a list and is given that announce answers the first call and handles it in the second:
    -- then the id of the sender leads to the supernode that was known, or to a new one with the
    -- key of the sender, in both cases last updated at the time of the receipt; every other id
    -- leads to what it led to before.
    pub announce_reaches_list :
        (r sent : ℕ) (s : Supernode c) (o : Output) (a : SupernodeAnnounce) (input : String)
        (early now : ℕ) (address : String) (testnet : Bool) (l : FullSupernodeList c g)
        (w : NetworkWorld c g) (j : String)
        → s.has_secret_key ≡ true
        → c.secret_key_to_public_key s.secret_key ≡ some s.id_key
        → (send_announce c r sent Status.none (some s) o).2.body ≡ announce_body a
        → nm.read_announce input ≡ some a
        → w.state ≡ none
        → w.fsl ≡ some l
        → w.has_supernode ≡ true
        → w.cryptonode_rpc_address ≡ some address
        → w.testnet ≡ some testnet
        → ((send_announce c r sent Status.none (some s) o).0 ≡ Status.forward)
          × (waiting : NetworkWorld c g) × (after : FullSupernodeList c g)
          × (send_supernode_announce_handler c g nm input early w ≡ replied Status.again waiting)
          × (send_supernode_announce_handler c g nm input now waiting
              ≡ replied Status.ok (record waiting { fsl = some after }))
          × (get c g j after ≡ (
              if id_key_as_string c s == j
              then some (heard s.id_key testnet now (get c g (id_key_as_string c s) l))
              else get c g j l))
    unfolding send_supernode_announce_handler store_request_and_reply id_key_as_string
        set_last_update_time
    announce_reaches_list r sent s o a input early now address testnet l w j hk hp carried read
          first hl hs ha ht =
        let timed = set_last_update_time c sent s in
        let prepared = (prepare_announce c r (blank_announce c) timed).0 in
        let same : prepared ≡ a =
          announce_body-injective
            (sym (ap (λ x. x.2.body) (announce_sent cl r sent s o hk hp)) ∙ carried) in
        let id : a.supernode_public_id ≡ c.key_to_hex s.id_key =
          sym (ap (λ x. x.supernode_public_id) same)
          ∙ prepared_id cl r (blank_announce c) timed hk in
        let valid : validate_announce c a ≡ some s.id_key =
          subst (λ x. validate_announce c x ≡ some s.id_key) same
            ((validate_announce-prepare_announce c cl r (blank_announce c) timed hk hp).1) in
        let waiting = record w {
          state = some handle_announce;
          request = some input;
          output = load (status_body (pos 0)) w.output;
        } in
        (
          ap (λ x. x.0) (announce_sent cl r sent s o hk hp),
          waiting,
          stored g a.supernode_public_id s.id_key testnet now l,
          rw first refl,
          announce_handled g nm input a s.id_key testnet address now l waiting read valid hl hs ha
              ht,
          subst
              (λ x.
                get c g j (stored g a.supernode_public_id s.id_key testnet now l)
                ≡ (if x == j then some (heard s.id_key testnet now (get c g x l)) else get c g j l))
              id (get-stored g a.supernode_public_id j s.id_key testnet now l id),
        )
