-- ===== src/Payments/Sales/Updates.antt =====
-- What a broadcast of a status does at the supernodes that receive it.
use Prim.Native.String.{◌++◌}
use graft_ng.Shared.{
  ℕ, ◌≡◌, ◌≢◌, refl, ◌⊎◌, inl, inr, String, Bool, true, false, not, Option, none, some, arith,
  if◌then◌else◌, ℤ, pos, int_eqb, int_to_string, ◌==◌, string_eq, lookup, assign,
  lookup-assign_same, Bool-cases, Option-cases, ap, ◌∙◌,
}
use text.Mathlib.TextEquality.{eq_iff}
use graft_ng.Tasks.Status.{Status}
use graft_ng.Rta.Crypto.{Crypto, CryptoLaws}
use graft_ng.Rta.Supernode.{Supernode, sign_message, verify_signature, verify_hash}
use graft_ng.Payments.{
  Global, int_value, as_int, UpdateSaleStatusBroadcast, Output, Body, broadcast_body, load,
  status_body, delivered_body, Reply, replied, thrown, rta_none, is_finite_rta_status,
  context_key_status, sign_sale_status_update, build_broadcast_sale_status_output,
}
use graft_ng.Payments.Sales.{
  Messages, MessagesLaws, sale_status_handler, check_sale_status_update_signature,
  update_sale_status_handler, update_checked, verify_update,
}

abbrev pub broadcast_data : Body → Option String
broadcast_data (broadcast_body b) = some b.data_
broadcast_data _ = none

module _ (c : Crypto) (cl : CryptoLaws c) where
  -- A signed status checks under the key of the signer.
  check-sign :
      (unwritten : c.Signature) (r : ℕ) (payment_id : String) (status : ℤ) (s : Supernode c)
      → s.has_secret_key ≡ true
      → c.secret_key_to_public_key s.secret_key ≡ some s.id_key
      → check_sale_status_update_signature c payment_id status
          (c.key_to_hex s.id_key)
          (sign_sale_status_update c unwritten r payment_id status s)
        ≡ true
  unfolding check_sale_status_update_signature sign_sale_status_update sign_message verify_signature
  check-sign unwritten r payment_id status s hk hp =
      let hash = c.cn_fast_hash (payment_id ++ (":" ++ int_to_string status)) in
      let sign = c.generate_signature r hash s.id_key s.secret_key in
      ground (
        arith,
        cl.key_hex s.id_key,
        cl.signature_hex sign,
        cl.signature_checks r hash s.id_key s.secret_key hp,
      )

module _ (c : Crypto) where
  -- The key and the signature read, and the signature checks under that key for the hash of the
  -- payment id and the status, with a colon between them.
  unfoldable pub IsSigned : UpdateSaleStatusBroadcast → Type 0
  IsSigned u =
      (k : c.PublicKey) × (sg : c.Signature) × (c.hex_to_key u.id_key ≡ some k)
      × (c.hex_to_signature u.signature ≡ some sg)
      × (c.check_signature (c.cn_fast_hash (u.payment_id ++ (":" ++ int_to_string u.status))) k sg
          ≡ true)

  check-IsSigned :
      (u : UpdateSaleStatusBroadcast)
      → check_sale_status_update_signature c u.payment_id u.status u.id_key u.signature ≡ true
      → IsSigned u
  unfolding IsSigned check_sale_status_update_signature verify_update verify_signature verify_hash
  check-IsSigned u h = ground arith

module _ {Tx : Type 0} (c : Crypto) (ms : Messages) where
  update_stored :
      (u : UpdateSaleStatusBroadcast) (current : ℤ) (g : Global Tx) (o : Output)
      → check_sale_status_update_signature c u.payment_id u.status u.id_key u.signature ≡ true
      → as_int rta_none (lookup (u.payment_id ++ context_key_status) g) ≡ some current
      → update_checked c ms (some u) (g, o)
        ≡ replied Status.ok (
          (if not (is_finite_rta_status current)
              then assign (u.payment_id ++ context_key_status) (int_value u.status) g
              else g),
          load (delivered_body "OK") o,
        )
  unfolding update_checked
  update_stored u current g o signed e = rw (update_checked, signed, e) refl

  -- The branch that the status takes.
  stored_reply : Bool → Global Tx → Global Tx → Output → Reply (Global Tx × Output)
  stored_reply f next g o = replied Status.ok ((if not f then next else g), o)

  chosen :
      (f b : Bool) (next g : Global Tx) (o : Output)
      → f ≡ b
      → stored_reply f next g o ≡ stored_reply b next g o
  chosen f b next g o e = ap (λ x. stored_reply x next g o) e

  -- Whatever arrives as a broadcast of a status, and whatever the context holds, a call either leaves
  -- the context as it was, or three things hold: the message is read; its key and its signature
  -- read, and the signature checks under that key for the hash of the payment id and the status of
  -- the message; and the status of that payment in the context is not finite. Then the status of
  -- that payment becomes the one in the message, and no other key changes.
  pub update_effects :
      (body : Option String) (g : Global Tx) (o : Output)
      → (update_sale_status_handler c ms body (g, o) ≡ thrown (g, o))
        ⊎ ((st : Status) × (o' : Output) × (update_sale_status_handler c ms body (g, o)
              ≡ replied st (g, o')))
        ⊎ ((data_ : String) × (u : UpdateSaleStatusBroadcast) × (current : ℤ) × (body ≡ some data_)
            × (ms.read_update data_ ≡ some u)
            × IsSigned c u
            × (as_int rta_none (lookup (u.payment_id ++ context_key_status) g) ≡ some current)
            × (is_finite_rta_status current ≡ false)
            × (update_sale_status_handler c ms body (g, o)
                ≡ replied Status.ok (
                  assign (u.payment_id ++ context_key_status) (int_value u.status) g,
                  load (delivered_body "OK") o,
                )))
  unfolding update_sale_status_handler update_checked stored_reply
  update_effects none g o = inr (inl (Status.error, _, refl))
  update_effects (some data_) g o = elim (Option-cases (ms.read_update data_)) [
    | inl unread ↦ rw unread (inr (inl (Status.error, _, refl)))
    | inr (u, read) ↦
        elim (Bool-cases
          (check_sale_status_update_signature c u.payment_id u.status u.id_key u.signature)) [
            | inr forged ↦ rw (read, forged) (inr (inl (Status.error, _, refl)))
            | inl signed ↦
                elim (Option-cases
                  (as_int rta_none (lookup (u.payment_id ++ context_key_status) g))) [
                    | inl other ↦ rw (read, signed, other) (inl refl)
                    | inr (current, held) ↦
                        let next =
                          assign (u.payment_id ++ context_key_status) (int_value u.status) g in
                        let stored =
                          ap (λ x. update_checked c ms x (g, o)) read
                          ∙ update_stored u current g o signed held in
                        elim (Bool-cases (is_finite_rta_status current)) [
                          | inl finite ↦ inr (
                              inl (
                                Status.ok,
                                _,
                                stored ∙ chosen (is_finite_rta_status current) true next g _ finite,
                              ))
                          | inr open_ ↦ inr (
                              inr (
                                data_,
                                u,
                                current,
                                refl,
                                read,
                                check-IsSigned c u signed,
                                held,
                                open_,
                                stored ∙ chosen (is_finite_rta_status current) false next g _ open_,
                              ))
                        ]
                  ]
          ]
  ]

-- A known status of a payment with an id is told to the client that asks.
pub status_told :
    {Tx : Type 0} (payment_id : String) (status : ℤ) (g : Global Tx) (o : Output)
    → payment_id ≢ ""
    → int_eqb status (pos 0) ≡ false
    → as_int rta_none (lookup (payment_id ++ context_key_status) g) ≡ some status
    → sale_status_handler (some payment_id) (g, o)
      ≡ replied Status.ok (g, load (status_body status) o)
unfolding sale_status_handler
status_told payment_id status g o named known held = elim (Bool-cases (payment_id == "")) [
  | inl e ↦ absurd (named ((eq_iff payment_id "").0 e))
  | inr e ↦ rw (held, e, known) refl
]

module _ {Tx : Type 0} (c : Crypto) (cl : CryptoLaws c) (ms : Messages)
    (msl : MessagesLaws ms) where
  -- A status that a supernode with a matching key pair broadcasts for a payment with an id: wherever
  -- the broadcast arrives, and the status of the payment there is not finite, a client that asks
  -- for the status afterwards is told the one that was broadcast, if it is not 0.
  pub broadcast_reaches_status :
      (unwritten : c.Signature) (r : ℕ) (payment_id data_ : String) (status current : ℤ)
      (s : Supernode c) (g : Global Tx) (o o2 : Output)
      → s.has_secret_key ≡ true
      → c.secret_key_to_public_key s.secret_key ≡ some s.id_key
      → broadcast_data
          (build_broadcast_sale_status_output c ms.write_update unwritten r payment_id status
            s).body
        ≡ some data_
      → as_int rta_none (lookup (payment_id ++ context_key_status) g) ≡ some current
      → is_finite_rta_status current ≡ false
      → payment_id ≢ ""
      → int_eqb status (pos 0) ≡ false
      → (after : Global Tx) × (update_sale_status_handler c ms (some data_) (g, o)
          ≡ replied Status.ok (after, load (delivered_body "OK") o))
        × (sale_status_handler (some payment_id) (after, o2)
            ≡ replied Status.ok (after, load (status_body status) o2))
  unfolding build_broadcast_sale_status_output update_sale_status_handler stored_reply
  broadcast_reaches_status unwritten r payment_id data_ status current s g o o2 hk hp sent held
        open_ named known =
      let u : UpdateSaleStatusBroadcast = record {
        payment_id = payment_id;
        status = status;
        id_key = c.key_to_hex s.id_key;
        signature = sign_sale_status_update c unwritten r payment_id status s;
      } in
      let written : some (ms.write_update u) ≡ some data_ = sent in
      let read : ms.read_update data_ ≡ some u =
        ap (ms.read_update) {x = data_} (cc written) ∙ msl.update_back u in
      let signed = check-sign c cl unwritten r payment_id status s hk hp in
      let key = payment_id ++ context_key_status in
      let after = assign key (int_value status) g in
      (
        after,
        ap (λ x. update_checked c ms x (g, o)) read
            ∙ (update_stored c ms u current g o signed held ∙ chosen c ms _ false after g _ open_),
        status_told payment_id status after o2 named known
            (ap (as_int rta_none) (lookup-assign_same key (int_value status) g)),
      )
