-- ===== src/Payments/Sales/Start.antt =====
-- The start of a sale, from the request of the point of sale to the supernodes of the sample.
use Prim.Native.String.{◌++◌}
use mathlib.Core.Bool.{true≢false}
use graft_ng.Shared.{
  ℕ, ◌≡◌, ◌≢◌, refl, sym, ap, ◌∙◌, String, Bool, true, false, not, ◌||◌, none, some, List, [],
  if◌then◌else◌, nat_eqb, ◌==◌, string_eq, lookup, assign, has_key, length, length-map,
  lookup-assign_same, lookup-assign_other, arith,
}
use graft_ng.Tasks.Status.{Status, status_code}
use graft_ng.Rta.Crypto.{Crypto}
use graft_ng.Rta.Supernode.{Supernode, id_key_as_string}
use graft_ng.Rta.SupernodeList.{Rng, auth_sample_size, get_blockchain_based_list_max_block_number}
use graft_ng.Rta.SupernodeList.Sample.{build_auth_sample}
use graft_ng.Payments.{
  Global, SaleData, Output, MulticastRequest, multicast_body, Reply, replied, thrown, aborted,
  int_value, sale_value, text_value, as_int, rta_none, rta_waiting, context_key_sale,
  context_key_sale_details, context_key_status, load, delivered_body, status_body,
}
use graft_ng.Payments.Keys.{details-status, status-sale, details-sale}
use graft_ng.Payments.Sales.{
  Messages, MessagesLaws, SaleDataMulticast, sale_cryptonode_handler, store_sale,
  sale_status_handler,
}
use graft_ng.Payments.Sales.Updates.{status_told}
use graft_ng.Payments.Sales.Client.{
  SaleRequest, SaleWorld, SaleInput, handle_client_sale_request, multicast_sale,
  sale_client_handler, sale_multicast_reply,
}

-- The payment id of a sale: that of the request, or the one that is generated.
abbrev pub payment_of : String → SaleRequest → String
payment_of generated in_ = if in_.payment_id == "" then generated else in_.payment_id

abbrev reply_code : {W : Type 0} → Reply W → ℕ
reply_code (replied s w) = status_code s
reply_code (thrown w) = 10
reply_code (aborted w) = 11

abbrev reply_world : {W : Type 0} → W → Reply W → W
reply_world d (replied s w) = w
reply_world d (thrown w) = w
reply_world d (aborted w) = w

-- Of two guards that end in an error, neither has held where the answer is to forward.
forward_of :
    {W : Type 0} (a b : Bool) (e1 e2 r : Reply W) (w : W)
    → reply_code e1 ≡ 4
    → reply_code e2 ≡ 4
    → (if a then e1 else if b then e2 else r) ≡ replied Status.forward w
    → (b ≡ false) × (r ≡ replied Status.forward w)
forward_of true b e1 e2 r w h1 h2 h = absurd (omega (arith, ap reply_code h, h1))
forward_of false true e1 e2 r w h1 h2 h = absurd (omega (arith, ap reply_code h, h2))
forward_of false false e1 e2 r w h1 h2 h = (refl, h)

complete : (answer : Bool) (n : ℕ) → (not answer || not (nat_eqb n 8)) ≡ false → n ≡ 8
complete true n h = ground arith
complete false n h = absurd (true≢false h)

module _ {Tx : Type 0} (c : Crypto) (g : Rng) (ms : Messages) where
  forward_is_multicast :
      (generated : String) (now : ℕ) (in_ : SaleRequest) (w w' : SaleWorld Tx c g)
      → handle_client_sale_request c g ms generated now (some in_) w ≡ replied Status.forward w'
      → (data_ : SaleData) × (sample : List (Supernode c)) × (drawn : SaleWorld Tx c g) × (length
            sample
          ≡ 8)
        × (w' ≡ multicast_sale c g ms in_ (payment_of generated in_) data_ sample drawn)
  unfolding handle_client_sale_request
  forward_is_multicast generated now in_ w w' h =
      let built =
        build_auth_sample c g (get_blockchain_based_list_max_block_number c g w.fsl)
          (payment_of generated in_) now [] w.fsl in
      let (enough, same) =
        forward_of (nat_eqb in_.amount 0)
          (not built.answer || not (nat_eqb (length built.out) auth_sample_size)) _ _ _ w' refl refl
          h in
      let data_ : SaleData = record {
        address = in_.id_key;
        block_number = get_blockchain_based_list_max_block_number c g w.fsl;
        amount = in_.amount;
      } in
      let drawn : SaleWorld Tx c g = record w {
        global =
            if not (in_.sale_details == "")
            then assign (payment_of generated in_ ++ context_key_sale_details)
                (text_value in_.sale_details) w.global
            else w.global;
        fsl = built.list;
      } in
      (
        data_,
        built.out,
        drawn,
        complete built.answer (length built.out) enough,
        sym (ap (reply_world w) same),
      )

  -- What a member of the sample holds afterwards.
  member_stores :
      (d : SaleDataMulticast) (member : Global Tx) (o : Output)
      → has_key (d.payment_id ++ context_key_sale) member ≡ false
      → ms.read_sale (ms.write_sale d) ≡ some d
      → (after : Global Tx) × (sale_cryptonode_handler c ms (some (ms.write_sale d)) (member, o)
          ≡ replied Status.ok (after, load (delivered_body "OK") o))
        × (lookup (d.payment_id ++ context_key_sale) after ≡ some (sale_value d.sale_data))
        × (lookup (d.payment_id ++ context_key_sale_details) after ≡ some (text_value d.details))
        × (lookup (d.payment_id ++ context_key_status) after ≡ some (int_value d.status))
  unfolding sale_cryptonode_handler store_sale
  member_stores d member o unknown back =
      let p = d.payment_id in
      let with_sale = assign (p ++ context_key_sale) (sale_value d.sale_data) member in
      let with_status = assign (p ++ context_key_status) (int_value d.status) with_sale in
      (
        assign (p ++ context_key_sale_details) (text_value d.details) with_status,
        rw (back, store_sale, unknown) refl,
        lookup-assign_other (p ++ context_key_sale_details) (p ++ context_key_sale) _ with_status
              (details-sale p p)
            ∙ (lookup-assign_other (p ++ context_key_status) (p ++ context_key_sale) _ with_sale
                  (status-sale p p)
                ∙ lookup-assign_same (p ++ context_key_sale) _ member),
        lookup-assign_same (p ++ context_key_sale_details) _ with_status,
        lookup-assign_other (p ++ context_key_sale_details) (p ++ context_key_status) _ with_status
              (details-status p p)
            ∙ lookup-assign_same (p ++ context_key_status) _ with_sale,
      )

  -- When the first call for a sale forwards, it multicasts to eight supernodes. A receiver that does
  -- not know the sale and is given the data of the multicast answers, holds the same sale as the
  -- sender and the details of the request, and tells a client who asks for the status, as the sender
  -- does, that the payment waits, if its id is not empty.
  pub sale_reaches_sample :
      (ml : MessagesLaws ms) (generated : String) (now : ℕ) (unwritten : c.Signature) (r : ℕ)
      (supernode : Supernode c) (input : SaleInput) (in_ : SaleRequest) (w w' : SaleWorld Tx c g)
      (member : Global Tx) (o o2 : Output)
      → input.as_request ≡ some in_
      → w.local.state ≡ none
      → sale_client_handler c g ms generated now unwritten r supernode input w
        ≡ replied Status.forward w'
      → has_key (payment_of generated in_ ++ context_key_sale) member ≡ false
      → payment_of generated in_ ≢ ""
      → (m : MulticastRequest) × (after : Global Tx) × (w'.output.body ≡ multicast_body m)
        × (length m.receiver_addresses ≡ 8)
        × (sale_cryptonode_handler c ms (some m.data_) (member, o)
            ≡ replied Status.ok (after, load (delivered_body "OK") o))
        × (lookup (payment_of generated in_ ++ context_key_sale) after
            ≡ lookup (payment_of generated in_ ++ context_key_sale) w'.global)
        × (lookup (payment_of generated in_ ++ context_key_sale_details) after
            ≡ some (text_value in_.sale_details))
        × (sale_status_handler (some (payment_of generated in_)) (after, o2)
            ≡ replied Status.ok (after, load (status_body rta_waiting) o2))
        × (sale_status_handler (some (payment_of generated in_)) (w'.global, o2)
            ≡ replied Status.ok (w'.global, load (status_body rta_waiting) o2))
  unfolding sale_client_handler multicast_sale
  sale_reaches_sample ml generated now unwritten r supernode input in_ w w' member o o2 asked fresh
        forwarded unknown named =
      let p = payment_of generated in_ in
      let first : SaleWorld Tx c g = record w {
        local = record w.local { state = some sale_multicast_reply };
      } in
      let called : handle_client_sale_request c g ms generated now (some in_) first
          ≡ replied Status.forward w' =
        sym (rw (sale_client_handler, fresh, asked) refl) ∙ forwarded in
      let (data_, sample, drawn, eight, same) =
        forward_is_multicast generated now in_ first w' called in
      let d : SaleDataMulticast = record {
        sale_data = data_;
        payment_id = p;
        status = rta_waiting;
        details = in_.sale_details;
      } in
      let (after, stored, sale, details, status) =
        member_stores d member o unknown (ml.sale_back d) in
      let with_sale = assign (p ++ context_key_sale) (sale_value data_) drawn.global in
      let own_global = ap (λ (x : SaleWorld Tx c g). x.global) same in
      (
        _,
        after,
        ap (λ (x : SaleWorld Tx c g). x.output.body) same,
        length-map (id_key_as_string c) sample ∙ eight,
        stored,
        sale
            ∙ sym (
                ap (lookup (p ++ context_key_sale)) own_global
                ∙ (lookup-assign_other (p ++ context_key_status) (p ++ context_key_sale) _ with_sale
                      (status-sale p p)
                    ∙ lookup-assign_same (p ++ context_key_sale) _ drawn.global)),
        details,
        status_told p rta_waiting after o2 named refl (ap (as_int rta_none) status),
        status_told p rta_waiting w'.global o2 named refl (
            ap (as_int rta_none) (
              ap (lookup (p ++ context_key_status)) own_global
              ∙ lookup-assign_same (p ++ context_key_status) _ with_sale)),
      )
