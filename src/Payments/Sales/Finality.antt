-- ===== src/Payments/Sales/Finality.antt =====
-- A sale that has come to an end, and the messages of other supernodes about sales.
use Prim.Native.String.{◌++◌}
use text.Mathlib.TextEquality.{eq_iff}
use mathlib.Core.Option.{some_inj}
use mathlib.Core.Bool.{true≢false}
use graft_ng.Shared.{
  ◌≡◌, Bool, not, ◌&&◌, arith, erase, lookup-erase, refl, sym, inl, inr, ap, ◌∙◌, String, true,
  false, Option, none, some, List, [], ◌∷◌, ℤ, ◌==◌, string_eq, lookup, assign, has_key,
  lookup-assign, lookup-assign_other, Bool-cases, Option-cases,
}
use graft_ng.Rta.Crypto.{Crypto}
use graft_ng.Payments.{
  Global, Value, int_value, text_value, sale_value, as_int, Output, Reply, replied, thrown, aborted,
  rta_none, is_finite_rta_status, context_key_status, context_key_sale, context_key_sale_details,
}
use graft_ng.Payments.Keys.{same_suffix, sale-status, details-status}
use graft_ng.Payments.Sales.{
  Messages, SaleDataMulticast, update_sale_status_handler, store_sale, sale_cryptonode_handler,
}
use graft_ng.Payments.Sales.Updates.{update_effects}

-- The messages that change a sale, with the bodies that they carry, and the end of the life of a key
-- of the context.
pub data SaleMessage : Type 0 where
  update_message sale_message : Option String → SaleMessage
  expiry : String → SaleMessage

-- Neither the status nor the sale of the payment has come to the end of its life.
abbrev pub spares : String → SaleMessage → Bool
spares payment_id (update_message b) = true
spares payment_id (sale_message b) = true
spares payment_id (expiry k) =
    not (k == (payment_id ++ context_key_status)) && not (k == (payment_id ++ context_key_sale))

abbrev pub spares_all : String → List SaleMessage → Bool
spares_all payment_id [] = true
spares_all payment_id (m ∷ more) = spares payment_id m && spares_all payment_id more

-- The sale is known and its status is a finite one.
unfoldable pub IsFinished : {Tx : Type 0} → String → ℤ → Global Tx → Type 0
IsFinished payment_id status g =
    (lookup (payment_id ++ context_key_status) g ≡ some (int_value status))
    × (is_finite_rta_status status ≡ true)
    × (has_key (payment_id ++ context_key_sale) g ≡ true)

both : (a b : Bool) → (a && b) ≡ true → (a ≡ true) × (b ≡ true)
both a b h = ground (arith, h)

abbrev pub context_after : {Tx : Type 0} → Reply (Global Tx × Output) → Global Tx
context_after (replied s w) = w.0
context_after (thrown w) = w.0
context_after (aborted w) = w.0

module _ {V : Type 0} where
  -- A key that is held is held after a write.
  has_key-assign :
      (k j : String) (v : V) (g : List (String × V))
      → has_key j g ≡ true
      → has_key j (assign k v g) ≡ true
  has_key-assign k j v g h = elim (Bool-cases (k == j)) [
    | inl e ↦ rw (lookup-assign k j v g, e) refl
    | inr e ↦ rw (lookup-assign_other k j v g e) h
  ]

module _ {Tx : Type 0} (c : Crypto) (ms : Messages) (o : Output) where
  pub handle_message : SaleMessage → Global Tx → Global Tx
  handle_message (update_message b) g = context_after (update_sale_status_handler c ms b (g, o))
  handle_message (sale_message b) g = context_after (sale_cryptonode_handler c ms b (g, o))
  handle_message (expiry k) g = erase k g

  pub handle_messages : List SaleMessage → Global Tx → Global Tx
  unfolding handle_message
  handle_messages [] g = g
  handle_messages (m ∷ more) g = handle_messages more (handle_message m g)

  module _ (p : String) (s : ℤ) where
    -- A write under another key than that of the status.
    write_other :
        (k : String) (v : Value Tx) (g : Global Tx)
        → (k == (p ++ context_key_status)) ≡ false
        → IsFinished p s g
        → IsFinished p s (assign k v g)
    unfolding IsFinished
    write_other k v g d (held, finite, known) = (
      lookup-assign_other k (p ++ context_key_status) v g d ∙ held,
      finite,
      has_key-assign k (p ++ context_key_sale) v g known,
    )

    -- An update of the payment finds the status finite.
    current_finite :
        (q : String) (current : ℤ) (g : Global Tx)
        → IsFinished p s g
        → as_int rta_none (lookup (q ++ context_key_status) g) ≡ some current
        → is_finite_rta_status current ≡ false
        → ((q ++ context_key_status) == (p ++ context_key_status)) ≡ false
    unfolding IsFinished
    current_finite q current g (held, finite, known) read open_ =
        elim (Bool-cases ((q ++ context_key_status) == (p ++ context_key_status))) [
          | inr e ↦ e
          | inl e ↦
              let key = (eq_iff (q ++ context_key_status) (p ++ context_key_status)).0 e in
              let there : some s ≡ some current =
                sym (ap (as_int rta_none) held)
                ∙ (sym (ap (λ k. as_int rta_none (lookup k g)) key) ∙ read) in
              absurd
                (true≢false (sym finite ∙ (ap is_finite_rta_status (some_inj.0 there) ∙ open_)))
        ]

    update-IsFinished :
        (b : Option String) (g : Global Tx)
        → IsFinished p s g
        → IsFinished p s (handle_message (update_message b) g)
    unfolding handle_message
    update-IsFinished b g h = elim (update_effects c ms b g o) [
      | inl failed ↦ rw failed h
      | inr (inl (st, o', same)) ↦ rw same h
      | inr (inr (data_, u, current, e, read, signed, held, open_, changed)) ↦ rw changed (
          write_other (u.payment_id ++ context_key_status) (int_value u.status) g
            (current_finite u.payment_id current g h held open_) h)
    ]

    -- A sale that is known is not written again.
    unknown_is_other :
        (q : String) (g : Global Tx)
        → IsFinished p s g
        → has_key (q ++ context_key_sale) g ≡ false
        → ((q ++ context_key_status) == (p ++ context_key_status)) ≡ false
    unfolding IsFinished
    unknown_is_other q g (held, finite, known) h =
        elim (Bool-cases ((q ++ context_key_status) == (p ++ context_key_status))) [
          | inr e ↦ e
          | inl e ↦ absurd (
              true≢false (
                sym known
                ∙ (ap (λ x. has_key (x ++ context_key_sale) g)
                      (sym (same_suffix q p context_key_status e))
                    ∙ h)))
        ]

    sale_stored :
        (d : SaleDataMulticast) (g : Global Tx)
        → IsFinished p s g
        → IsFinished p s (context_after (store_sale c ms (some d) (g, o)))
    unfolding store_sale IsFinished
    sale_stored d g h = elim (Bool-cases (has_key (d.payment_id ++ context_key_sale) g)) [
      | inl e ↦ rw (store_sale, e) h
      | inr e ↦
          let q = d.payment_id in
          rw (store_sale, e)
            (write_other (q ++ context_key_sale_details) (text_value d.details) _
              (details-status q p)
              (write_other (q ++ context_key_status) (int_value d.status) _
                (unknown_is_other q g h e)
                (write_other (q ++ context_key_sale) (sale_value d.sale_data) g (sale-status q p)
                  h)))
    ]

    -- The end of the life of another key.
    expiry-IsFinished :
        (k : String) (g : Global Tx)
        → spares p (expiry k) ≡ true
        → IsFinished p s g
        → IsFinished p s (erase k g)
    unfolding IsFinished
    expiry-IsFinished k g other (held, finite, known) =
        let of_status = lookup-erase k (p ++ context_key_status) g in
        let of_sale = lookup-erase k (p ++ context_key_sale) g in
        (ground (arith, of_status, held, other), finite, ground (arith, of_sale, known, other))

    message-IsFinished :
        (m : SaleMessage) (g : Global Tx)
        → spares p m ≡ true
        → IsFinished p s g
        → IsFinished p s (handle_message m g)
    unfolding handle_message sale_cryptonode_handler store_sale
    message-IsFinished (update_message b) g other h = update-IsFinished b g h
    message-IsFinished (expiry k) g other h = expiry-IsFinished k g other h
    message-IsFinished (sale_message none) g other h = h
    message-IsFinished (sale_message (some data_)) g other h =
        elim (Option-cases (ms.read_sale data_)) [
          | inl unread ↦ rw unread h
          | inr (d, read) ↦ rw read (sale_stored d g h)
        ]

    -- Whatever updates of statuses and multicasts of sales arrive after a payment that a supernode
    -- knows as a sale has a finite status, and whatever other keys of the context come to the end of
    -- their lives meanwhile, the status stays what it is and the sale stays known, as long as
    -- neither of these two keys comes to the end of its own.
    pub IsFinished-stays :
        (messages : List SaleMessage) (g : Global Tx)
        → spares_all p messages ≡ true
        → IsFinished p s g
        → IsFinished p s (handle_messages messages g)
    unfolding handle_messages
    IsFinished-stays [] g alive h = h
    IsFinished-stays (m ∷ more) g alive h =
        let (first, others) = both (spares p m) (spares_all p more) alive in
        IsFinished-stays more (handle_message m g) others (message-IsFinished m g first h)
