-- ===== src/Payments/Keys.antt =====
-- Keys of the global context that are made with different suffixes are different.
use Prim.Native.String.{◌++◌, count}
use text.Mathlib.TextEquality.{eq_iff}
use text.Mathlib.TextLemmas.{append_inj, append_assoc, length-append, append_cancel_right}
use graft_ng.Shared.{
  ◌+◌, ◌≡◌, refl, sym, ◌∙◌, ap, String, true, false, arith, ◌==◌, string_eq, Bool-cases, inl, inr,
}
use graft_ng.Payments.{
  context_key_sale_details, context_key_sale, context_key_status, context_key_auth_result_by_txid,
}

-- The shorter suffix is not the end of the longer one.
apart :
    (a b s t u : String)
    → count s ≡ count u
    → (s == u) ≡ false
    → ((a ++ s) == (b ++ (t ++ u))) ≡ false
apart a b s t u n d = elim (Bool-cases ((a ++ s) == (b ++ (t ++ u)))) [
  | inr e ↦ e
  | inl e ↦
      let joined : a ++ s ≡ (b ++ t) ++ u =
        (eq_iff (a ++ s) (b ++ (t ++ u))).0 e ∙ sym (append_assoc b t u) in
      let sizes : count a + count s ≡ count (b ++ t) + count u =
        sym (length-append a s) ∙ (ap count joined ∙ length-append (b ++ t) u) in
      let same : s ≡ u = (append_inj joined (omega (arith, sizes, n))).1 in
      ground (arith, eq_iff s u, same, d)
]

flip : (s t : String) → (s == t) ≡ false → (t == s) ≡ false
flip s t h = ground (arith, eq_iff s t, eq_iff t s)

pub same_suffix : (a b s : String) → ((a ++ s) == (b ++ s)) ≡ true → a ≡ b
same_suffix a b s h = append_cancel_right a b s ((eq_iff (a ++ s) (b ++ s)).0 h)

pub auth-status :
    (a b : String) → ((a ++ context_key_auth_result_by_txid) == (b ++ context_key_status)) ≡ false
auth-status a b =
    flip (b ++ ":status") (a ++ ":tx_id_to_auth_resp")
      (apart b a ":status" ":tx_id_to_au" "th_resp" refl refl)

pub sale-status : (a b : String) → ((a ++ context_key_sale) == (b ++ context_key_status)) ≡ false
sale-status a b = apart a b ":sale" ":s" "tatus" refl refl

pub details-status :
    (a b : String) → ((a ++ context_key_sale_details) == (b ++ context_key_status)) ≡ false
details-status a b =
    flip (b ++ ":status") (a ++ ":saledetails") (apart b a ":status" ":sale" "details" refl refl)

pub status-auth :
    (a b : String) → ((b ++ context_key_status) == (a ++ context_key_auth_result_by_txid)) ≡ false
status-auth a b = apart b a ":status" ":tx_id_to_au" "th_resp" refl refl

pub status-sale : (a b : String) → ((a ++ context_key_status) == (b ++ context_key_sale)) ≡ false
status-sale a b = flip (b ++ ":sale") (a ++ ":status") (sale-status b a)

pub details-sale :
    (a b : String) → ((a ++ context_key_sale_details) == (b ++ context_key_sale)) ≡ false
details-sale a b =
    flip (b ++ ":sale") (a ++ ":saledetails") (apart b a ":sale" ":salede" "tails" refl refl)
