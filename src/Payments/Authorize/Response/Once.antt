-- ===== src/Payments/Authorize/Response/Once.antt =====
-- A key votes at most once on a transaction.
use Prim.Native.String.{◌++◌}
use mathlib.Core.Option.{some_inj, none-ne-some}
use mathlib.Core.Bool.{true≢false}
use text.Mathlib.TextEquality.{eq_iff}
use graft_ng.Shared.{
  ℕ, ◌+◌, ◌≤◌, ◌≡◌, inl, inr, refl, sym, ◌∙◌, ap, subst, String, Bool, true, false, ◌||◌, Option,
  none, some, List, [], ◌∷◌, ◌++◌ as append, int_eqb, lookup, assign, string_eq, ◌==◌, Bool-cases,
  lookup-assign, arith, if◌then◌else◌,
}
use graft_ng.Rta.Crypto.{Crypto}
use graft_ng.Rta.Supernode.{Supernode}
use graft_ng.Payments.{
  RtaAuthResult, SupernodeSignature, UpdateSaleStatusBroadcast, Global, Value, auth_value,
  int_value, state_value, details_value, u64_value, text_value, sale_value, tx_value, as_auth,
  context_key_auth_result_by_txid,
}
use graft_ng.Payments.Authorize.{
  AuthorizeRtaTxResponse, Transactions, AuthMessages, Unwritten, add_vote, contains,
  already_approved, already_rejected, no_votes, auth_approved,
}
use graft_ng.Payments.Authorize.Response.{ResponseWorld, handle_rta_auth_response_multicast}
use graft_ng.Payments.Authorize.Response.Outcomes.{
  Counted, Refused, after_vote, after_counting, multicast_outcomes,
}
use graft_ng.Payments.Authorize.Response.Votes.{Waits, Rejects, Approves, evaluate_effects}

-- How often a key stands in a list of votes.
pub votes_of : String → List SupernodeSignature → ℕ
votes_of id [] = 0
votes_of id (s ∷ l) = (if s.id_key == id then 1 else 0) + votes_of id l

-- No key stands in the two lists more than once.
unfoldable pub IsVotedOnce : RtaAuthResult → Type 0
IsVotedOnce r = (id : String) → votes_of id r.approved + votes_of id r.rejected ≤ 1

-- All votes that the context holds are such.
unfoldable pub HasVotesOnce : {Tx : Type 0} → Global Tx → Type 0
HasVotesOnce {Tx} g =
    (k : String) (r : RtaAuthResult) → lookup k g ≡ some (auth_value r) → IsVotedOnce r

votes_of-contains :
    (l : List SupernodeSignature) (id : String) → contains l id ≡ false → votes_of id l ≡ 0
unfolding votes_of contains
votes_of-contains [] id h = refl
votes_of-contains (s ∷ l) id h = ground (arith, votes_of-contains l id)

votes_of-append :
    (l : List SupernodeSignature) (s : SupernodeSignature) (id : String)
    → votes_of id (append l (s ∷ [])) ≡ votes_of id l + (if s.id_key == id then 1 else 0)
unfolding votes_of
votes_of-append [] s id = omega arith
votes_of-append (x ∷ l) s id = omega (arith, votes_of-append l s id)

-- The votes of a key of which neither list holds one.
votes_of-add_vote :
    (resp : AuthorizeRtaTxResponse) (r : RtaAuthResult) (id : String)
    → votes_of id (add_vote resp r).approved + votes_of id (add_vote resp r).rejected
      ≡ (votes_of id r.approved + votes_of id r.rejected)
        + (if resp.signature.id_key == id then 1 else 0)
unfolding add_vote
votes_of-add_vote resp r id = elim (Bool-cases (int_eqb resp.result auth_approved)) [
  | inl e ↦ rw e (omega (arith, votes_of-append r.approved resp.signature id))
  | inr e ↦ rw e (omega (arith, votes_of-append r.rejected resp.signature id))
]

add_vote-IsVotedOnce :
    (resp : AuthorizeRtaTxResponse) (r : RtaAuthResult)
    → (already_approved resp.signature.id_key r || already_rejected resp.signature.id_key r) ≡ false
    → IsVotedOnce r
    → IsVotedOnce (add_vote resp r)
unfolding IsVotedOnce already_approved already_rejected
add_vote-IsVotedOnce resp r fresh once id =
    let key = resp.signature.id_key in
    elim (Bool-cases (key == id)) [
      | inr other ↦ ground (arith, votes_of-add_vote resp r id, once id)
      | inl same ↦
          let none_yet = votes_of-contains r.approved key in
          let none_so_far = votes_of-contains r.rejected key in
          subst
            (λ i. votes_of i (add_vote resp r).approved + votes_of i (add_vote resp r).rejected ≤ 1)
            ((eq_iff key id).0 same)
            (ground (arith, votes_of-add_vote resp r key, none_yet, none_so_far))
    ]

held-IsVotedOnce :
    {Tx : Type 0} (o : Option (Value Tx)) (r : RtaAuthResult)
    → ((q : RtaAuthResult) → o ≡ some (auth_value q) → IsVotedOnce q)
    → as_auth no_votes o ≡ some r
    → IsVotedOnce r
unfolding IsVotedOnce votes_of
held-IsVotedOnce none r all e = subst IsVotedOnce (some_inj.0 e) (λ id. omega arith)
held-IsVotedOnce (some (auth_value q)) r all e = subst IsVotedOnce (some_inj.0 e) (all q refl)
held-IsVotedOnce (some (int_value q)) r all e = absurd (none-ne-some r e)
held-IsVotedOnce (some (u64_value q)) r all e = absurd (none-ne-some r e)
held-IsVotedOnce (some (text_value q)) r all e = absurd (none-ne-some r e)
held-IsVotedOnce (some (sale_value q)) r all e = absurd (none-ne-some r e)
held-IsVotedOnce (some (tx_value q)) r all e = absurd (none-ne-some r e)
held-IsVotedOnce (some (state_value q)) r all e = absurd (none-ne-some r e)
held-IsVotedOnce (some (details_value q)) r all e = absurd (none-ne-some r e)

auth_of : {Tx : Type 0} → Value Tx → RtaAuthResult
auth_of (auth_value r) = r
auth_of _ = no_votes

is_auth : {Tx : Type 0} → Value Tx → Bool
is_auth (auth_value r) = true
is_auth _ = false

-- What is read after a write, by whether the keys agree.
lookup-assign_when :
    {V : Type 0} (k j : String) (v : V) (g : List (String × V)) (b : Bool)
    → (k == j) ≡ b
    → lookup j (assign k v g) ≡ (if b then some v else lookup j g)
lookup-assign_when k j v g b e =
    lookup-assign k j v g ∙ ap (λ x. if x then some v else lookup j g) e

module _ {Tx : Type 0} where
  -- Storing votes under a key.
  store-HasVotesOnce :
      (k : String) (r : RtaAuthResult) (g : Global Tx)
      → IsVotedOnce r
      → HasVotesOnce g
      → HasVotesOnce (assign k (auth_value r) g)
  unfolding HasVotesOnce auth_of
  store-HasVotesOnce k r g once all j q held = elim (Bool-cases (k == j)) [
    | inl e ↦
        let found = sym (lookup-assign_when k j (auth_value r) g true e) ∙ held in
        subst IsVotedOnce (ap auth_of (some_inj.0 found)) once
    | inr e ↦ all j q (sym (lookup-assign_when k j (auth_value r) g false e) ∙ held)
  ]

  -- Storing something else.
  other-HasVotesOnce :
      (k : String) (v : Value Tx) (g : Global Tx)
      → is_auth v ≡ false
      → HasVotesOnce g
      → HasVotesOnce (assign k v g)
  unfolding HasVotesOnce is_auth
  other-HasVotesOnce k v g other all j q held = elim (Bool-cases (k == j)) [
    | inl e ↦
        let found = sym (lookup-assign_when k j v g true e) ∙ held in
        absurd (true≢false (sym (ap is_auth (some_inj.0 found)) ∙ other))
    | inr e ↦ all j q (sym (lookup-assign_when k j v g false e) ∙ held)
  ]

module _ {Tx : Type 0} (c : Crypto) (t : Transactions Tx c) (am : AuthMessages)
    (write : UpdateSaleStatusBroadcast → String) (u : Unwritten c) (supernode : Supernode c)
    (r : ℕ) where
  after_counting-HasVotesOnce :
      (resp : AuthorizeRtaTxResponse) (payment_id : String) (votes : RtaAuthResult)
      (w : ResponseWorld Tx)
      → Counted c u resp payment_id votes w
      → HasVotesOnce w.global
      → HasVotesOnce (after_counting resp payment_id (add_vote resp votes) w).global
  unfolding Counted after_counting HasVotesOnce
  after_counting-HasVotesOnce resp payment_id votes w (meant, known, signed, held, fresh) all =
      let key = resp.tx_id ++ context_key_auth_result_by_txid in
      store-HasVotesOnce key (add_vote resp votes) w.global
        (add_vote-IsVotedOnce resp votes fresh
          (held-IsVotedOnce (lookup key w.global) votes (all key) held))
        all

  -- If no key stands twice among the votes on a transaction, then neither does after a call, whatever
  -- arrives as a vote.
  pub response-HasVotesOnce :
      (body : String) (w : ResponseWorld Tx)
      → HasVotesOnce w.global
      → HasVotesOnce (handle_rta_auth_response_multicast c t am write u supernode r body w).1.global
  unfolding Refused Waits Rejects Approves after_vote is_auth
  response-HasVotesOnce body w all = elim (multicast_outcomes c t am write u supernode r body w) [
    | inl refused ↦ subst HasVotesOnce (sym (refused.1)) all
    | inr (req, resp, payment_id, votes, read, vote, counted, same) ↦
        let stored = after_counting resp payment_id (add_vote resp votes) w in
        let once = after_counting-HasVotesOnce resp payment_id votes w counted all in
        elim (evaluate_effects c t am write u supernode r payment_id resp.tx_id
          (add_vote resp votes) stored) [
            | inl waits ↦ subst HasVotesOnce (sym (ap (λ x. x.1.global) same ∙ waits.1)) once
            | inr (inl rejects) ↦
                subst HasVotesOnce
                  (sym (ap (λ x. x.1.global) same ∙ ap (λ x. x.1.global) (rejects.1)))
                  (other-HasVotesOnce _ _ _ refl (other-HasVotesOnce _ _ _ refl once))
            | inr (inr approves) ↦
                subst HasVotesOnce (sym (ap (λ x. x.1.global) same ∙ approves.8)) once
          ]
  ]
