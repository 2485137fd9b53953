-- ===== src/Payments/Rejections.antt =====
-- src/supernode/requests/reject_sale.cpp and reject_pay.cpp. The request is read with the `get` that
-- throws.
use Prim.Native.String.{◌++◌}
use graft_ng.Shared.{
  String, ◌||◌, Option, none, some, ℤ, pos, int_eqb, if◌then◌else◌, ◌==◌, string_eq, lookup, assign,
}
use graft_ng.Tasks.Status.{Status}
use graft_ng.Payments.{
  Global, Output, Reply, replied, thrown, load, result_body, int_value, as_int, rta_none,
  rta_rejected_by_pos, rta_rejected_by_wallet, context_key_status, error_invalid_payment_id,
}

module _ {Tx : Type 0} where
  set_rejected : ℤ → String → Option ℤ → Global Tx × Output → Reply (Global Tx × Output)
  set_rejected status payment_id none w = thrown w
  set_rejected status payment_id (some current_status) (g, o) =
      if payment_id == "" || int_eqb current_status (pos 0)
      then replied Status.error (g, error_invalid_payment_id o)
      else replied Status.ok (
        assign (payment_id ++ context_key_status) (int_value status) g,
        load (result_body (pos 0)) o,
      )

  unfoldable pub reject_sale_handler :
      Option String → Global Tx × Output → Reply (Global Tx × Output)
  unfolding set_rejected
  reject_sale_handler none w = thrown w
  reject_sale_handler (some payment_id) (g, o) =
      set_rejected rta_rejected_by_pos payment_id
        (as_int rta_none (lookup (payment_id ++ context_key_status) g)) (g, o)

  unfoldable pub reject_pay_handler :
      Option String → Global Tx × Output → Reply (Global Tx × Output)
  unfolding set_rejected
  reject_pay_handler none w = thrown w
  reject_pay_handler (some payment_id) (g, o) =
      set_rejected rta_rejected_by_wallet payment_id
        (as_int rta_none (lookup (payment_id ++ context_key_status) g)) (g, o)
