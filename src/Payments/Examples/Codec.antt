-- ===== src/Payments/Examples/Codec.antt =====
-- A way of writing the messages of the payments that can be read back.
use Prim.Native.String.{◌∷◌ as str_cons}
use Prim.Native.Char.{Char, code}
use graft_ng.Payments.{UpdateSaleStatusBroadcast}
use graft_ng.Payments.Sales.{Messages, MessagesLaws, SaleDataMulticast}
use graft_ng.Shared.{
  ℕ, zero, suc, ◌≡◌, refl, ap, ◌∙◌, String, Option, none, some, List, [], ◌∷◌, if◌then◌else◌,
  nat_eqb, ℤ, pos, negsuc, length,
}

-- A text and what follows it.
frame : String → String → String
frame String.[] rest = str_cons "0" rest
frame (String.◌∷◌ c s) rest = str_cons "1" (str_cons c (frame s rest))

prepend : Char → Option (String × String) → Option (String × String)
prepend c none = none
prepend c (some (s, rest)) = some (str_cons c s, rest)

unframe : String → Option (String × String)
unfolding prepend
unframe String.[] = none
unframe (String.◌∷◌ m String.[]) = if nat_eqb (code m) 48 then some ("", "") else none
unframe (String.◌∷◌ m (String.◌∷◌ c s)) =
    let more = prepend c (unframe s) in
    if nat_eqb (code m) 48 then some ("", str_cons c s) else more

unframe-frame : (s rest : String) → unframe (frame s rest) ≡ some (s, rest)
unfolding unframe frame
unframe-frame String.[] String.[] = refl
unframe-frame String.[] (String.◌∷◌ c rest) = refl
unframe-frame (String.◌∷◌ c s) rest = ap (prepend c) (unframe-frame s rest)

unfoldable pub write_fields : List String → String
unfolding frame
write_fields [] = ""
write_fields (s ∷ l) = frame s (write_fields l)

cons_field : String → Option (List String) → Option (List String)
cons_field s none = none
cons_field s (some l) = some (s ∷ l)

unfoldable pub read_fields : ℕ → String → Option (List String)
unfolding unframe cons_field
read_fields zero t = some []
read_fields (suc n) t = elim (unframe t) [
  | none ↦ none
  | some (s, rest) ↦ cons_field s (read_fields n rest)
]

pub read-write : (l : List String) → read_fields (length l) (write_fields l) ≡ some l
unfolding read_fields write_fields
read-write [] = refl
read-write (s ∷ l) =
    rw (read_fields, unframe-frame s (write_fields l)) (ap (cons_field s) (read-write l))

unfoldable pub unary : ℕ → String
unary zero = ""
unary (suc n) = str_cons "1" (unary n)

abbrev pub ticks : String → ℕ
ticks String.[] = 0
ticks (String.◌∷◌ c s) = suc (ticks s)

pub ticks-unary : (n : ℕ) → ticks (unary n) ≡ n
unfolding unary
ticks-unary zero = refl
ticks-unary (suc n) = ap suc (ticks-unary n)

sign_of : ℤ → String
sign_of (pos n) = "1"
sign_of (negsuc n) = ""

size_of : ℤ → ℕ
size_of (pos n) = n
size_of (negsuc n) = n

of_parts : String → String → ℤ
of_parts String.[] t = negsuc (ticks t)
of_parts (String.◌∷◌ c s) t = pos (ticks t)

of_parts-parts : (n : ℤ) → of_parts (sign_of n) (unary (size_of n)) ≡ n
unfolding of_parts sign_of size_of
of_parts-parts (pos n) = ap pos (ticks-unary n)
of_parts-parts (negsuc n) = ap negsuc (ticks-unary n)

write_update : UpdateSaleStatusBroadcast → String
unfolding write_fields sign_of unary size_of
write_update u =
    write_fields
      (u.payment_id ∷ sign_of u.status ∷ unary (size_of u.status) ∷ u.id_key ∷ u.signature ∷ [])

update_of : Option (List String) → Option UpdateSaleStatusBroadcast
unfolding of_parts
update_of (some (p ∷ i ∷ n ∷ k ∷ s ∷ [])) =
    some (record { payment_id = p; status = of_parts i n; id_key = k; signature = s })
update_of _ = none

write_sale : SaleDataMulticast → String
unfolding write_fields sign_of unary size_of
write_sale d = write_fields (
    d.sale_data.address
    ∷ unary d.sale_data.block_number
    ∷ unary d.sale_data.amount
    ∷ d.payment_id
    ∷ sign_of d.status
    ∷ unary (size_of d.status)
    ∷ d.details
    ∷ [])

sale_of : Option (List String) → Option SaleDataMulticast
unfolding of_parts
sale_of (some (a ∷ b ∷ m ∷ p ∷ i ∷ n ∷ d ∷ [])) = some (record {
  sale_data = record { address = a; block_number = ticks b; amount = ticks m };
  payment_id = p;
  status = of_parts i n;
  details = d;
})
sale_of _ = none

unfoldable pub codec : Messages
unfolding write_update write_sale update_of sale_of read_fields
codec = record {
  write_sale = write_sale;
  read_sale = λ t. sale_of (read_fields 7 t);
  write_update = write_update;
  read_update = λ t. update_of (read_fields 5 t);
}

update_back : (u : UpdateSaleStatusBroadcast) → codec.read_update (codec.write_update u) ≡ some u
unfolding codec
update_back u =
    ap update_of (
      read-write
        (u.payment_id ∷ sign_of u.status ∷ unary (size_of u.status) ∷ u.id_key ∷ u.signature ∷ []))
    ∙ ap
        (λ s. some (record {
          payment_id = u.payment_id;
          status = s;
          id_key = u.id_key;
          signature = u.signature;
        }))
        (of_parts-parts u.status)

sale_back : (d : SaleDataMulticast) → codec.read_sale (codec.write_sale d) ≡ some d
unfolding codec
sale_back d =
    ap sale_of (
      read-write (
        d.sale_data.address
        ∷ unary d.sale_data.block_number
        ∷ unary d.sale_data.amount
        ∷ d.payment_id
        ∷ sign_of d.status
        ∷ unary (size_of d.status)
        ∷ d.details
        ∷ []))
    ∙ λ i. some (record {
      sale_data = record {
        address = d.sale_data.address;
        block_number = ticks-unary d.sale_data.block_number i;
        amount = ticks-unary d.sale_data.amount i;
      };
      payment_id = d.payment_id;
      status = of_parts-parts d.status i;
      details = d.details;
    })

pub codec-laws : MessagesLaws codec
codec-laws = record { sale_back = sale_back; update_back = update_back }
