-- ===== src/Payments/Examples/Letters.antt =====
-- A way of writing the messages on details that can be read back.
use graft_ng.Shared.{
  ◌≡◌, refl, ap, ◌∙◌, String, Option, none, some, List, [], ◌∷◌, string_eq, length,
}
use graft_ng.Rta.Examples.{toy}
use graft_ng.Payments.{SupernodeFee, SaleDetailsResponse, UnicastRequest}
use graft_ng.Payments.Details.{SaleDetailsRequest, DetailsMessages, DetailsMessagesLaws}
use graft_ng.Payments.Examples.Codec.{
  write_fields, read_fields, read-write, unary, ticks, ticks-unary,
}

write_request : SaleDetailsRequest → String
write_request r = write_fields (r.payment_id ∷ unary r.block_number ∷ r.callback_uri ∷ [])

request_of : Option (List String) → Option SaleDetailsRequest
request_of (some (p ∷ b ∷ u ∷ [])) =
    some (record { payment_id = p; block_number = ticks b; callback_uri = u })
request_of _ = none

flatten : List SupernodeFee → List String
flatten [] = []
flatten (f ∷ fs) = f.address ∷ f.id_key ∷ f.fee ∷ flatten fs

cons_fee : SupernodeFee → Option (List SupernodeFee) → Option (List SupernodeFee)
cons_fee f none = none
cons_fee f (some fs) = some (f ∷ fs)

fees_of : List String → Option (List SupernodeFee)
unfolding cons_fee
fees_of [] = some []
fees_of (a ∷ []) = none
fees_of (a ∷ k ∷ []) = none
fees_of (a ∷ k ∷ f ∷ rest) = cons_fee (record { address = a; id_key = k; fee = f }) (fees_of rest)

fees_of-flatten : (fs : List SupernodeFee) → fees_of (flatten fs) ≡ some fs
unfolding fees_of flatten
fees_of-flatten [] = refl
fees_of-flatten (f ∷ fs) = ap (cons_fee f) (fees_of-flatten fs)

with_details : String → Option (List SupernodeFee) → Option SaleDetailsResponse
with_details d none = none
with_details d (some fs) = some (record { auth_sample = fs; details = d })

fees_in : Option (List String) → Option (List SupernodeFee)
fees_in none = none
fees_in (some l) = fees_of l

write_response : SaleDetailsResponse → String
write_response r =
    write_fields (
      unary (length (flatten r.auth_sample))
      ∷ write_fields (flatten r.auth_sample)
      ∷ r.details
      ∷ [])

response_in : Option (List String) → Option SaleDetailsResponse
unfolding with_details fees_in
response_in (some (n ∷ b ∷ d ∷ [])) = with_details d (fees_in (read_fields (ticks n) b))
response_in _ = none

unfoldable pub letters : (String → Option UnicastRequest) → DetailsMessages toy
unfolding write_request request_of write_response response_in flatten fees_of
letters read = record {
  write_request = write_request;
  read_request = λ t. request_of (read_fields 3 t);
  write_response = write_response;
  read_response = λ t. response_in (read_fields 3 t);
  read_unicast = read;
  round_fee = λ amount. amount;
}

request_back : (r : SaleDetailsRequest) → request_of (read_fields 3 (write_request r)) ≡ some r
unfolding write_request request_of
request_back r =
    ap request_of (read-write (r.payment_id ∷ unary r.block_number ∷ r.callback_uri ∷ []))
    ∙ ap
        (λ b.
          some
            (record { payment_id = r.payment_id; block_number = b; callback_uri = r.callback_uri }))
        (ticks-unary r.block_number)

response_back : (r : SaleDetailsResponse) → response_in (read_fields 3 (write_response r)) ≡ some r
unfolding write_response response_in with_details fees_in
response_back r =
    let fields = flatten r.auth_sample in
    ap response_in (read-write (unary (length fields) ∷ write_fields fields ∷ r.details ∷ []))
    ∙ (ap (λ n. with_details r.details (fees_in (read_fields n (write_fields fields))))
          (ticks-unary (length fields))
        ∙ (ap (λ l. with_details r.details (fees_in l)) (read-write fields)
            ∙ ap (with_details r.details) (fees_of-flatten r.auth_sample)))

pub letters-laws : (read : String → Option UnicastRequest) → DetailsMessagesLaws (letters read)
unfolding letters
letters-laws read = record { request_back = request_back; response_back = response_back }
