-- ===== src/Rta/SupernodeList/Balance.antt =====
-- `FullSupernodeList::buildAuthSample`, the middle part: how many supernodes of each of the four
-- tiers are taken, so that a tier that is short is made up for by another.
pub mod Inv
use graft_ng.Shared.{
  ℕ, zero, suc, ◌+◌, ◌-◌, ◌≤◌, ◌<◌, min, ◌≡◌, refl, Bool, true, ◌⊎◌, if◌then◌else◌, ltb, nat_eqb,
  arith,
}
use graft_ng.Rta.SupernodeList.{items_per_tier, tiers, auth_sample_size}

-- `std::array<T, TIERS>`.
pub record Four {ℓ} (A : Type ℓ) : Type ℓ where
  pub at0 : A
  pub at1 : A
  pub at2 : A
  pub at3 : A

module _ {ℓ} {A : Type ℓ} where
  abbrev pub get4 : Four A → ℕ → A
  get4 f zero = f.at0
  get4 f (suc zero) = f.at1
  get4 f (suc (suc zero)) = f.at2
  get4 f (suc (suc (suc i))) = f.at3

  abbrev pub set4 : Four A → ℕ → A → Four A
  set4 f zero v = record f { at0 = v }
  set4 f (suc zero) v = record f { at1 = v }
  set4 f (suc (suc zero)) v = record f { at2 = v }
  set4 f (suc (suc (suc i))) v = record f { at3 = v }

abbrev pub total : Four ℕ → ℕ
total f = f.at0 + f.at1 + f.at2 + f.at3

-- The body of the inner loop: `deficit` supernodes are still missing at tier i. A deficit or a
-- surplus that is negative in the source is 0 here; both are only tested for being positive.
unfoldable pub transfer_from : Four ℕ → ℕ → ℕ → ℕ → Four ℕ → ℕ × Four ℕ
transfer_from sizes i j deficit select =
    if nat_eqb i j
    then (deficit, select)
    else (let surplus = get4 sizes j - get4 select j in
        let transfer = min deficit surplus in
        if ltb 0 surplus
        then (
          deficit - transfer,
          set4 (set4 select i (get4 select i - transfer)) j (get4 select j + transfer),
        )
        else (deficit, select))

-- The inner loop, from tier j - 1 down to tier 0.
unfoldable pub make_up : Four ℕ → ℕ → ℕ → ℕ → Four ℕ → ℕ × Four ℕ
make_up sizes i zero deficit select = (deficit, select)
make_up sizes i (suc j) deficit select =
    let (deficit', select') = transfer_from sizes i j deficit select in
    let rest = make_up sizes i j deficit' select' in
    if ltb 0 deficit then rest else (deficit, select)

-- The body of the outer loop.
unfoldable pub balance_tier : Four ℕ → ℕ → Four ℕ → Four ℕ
balance_tier sizes i select =
    let (deficit, select') = make_up sizes i tiers (get4 select i - get4 sizes i) select in
    if ltb 0 deficit then set4 select' i (get4 select' i - deficit) else select'

abbrev pub filled : Four ℕ
filled = record {
  at0 = items_per_tier;
  at1 = items_per_tier;
  at2 = items_per_tier;
  at3 = items_per_tier;
}

unfoldable pub balance : Four ℕ → Four ℕ
balance sizes =
    balance_tier sizes 3 (balance_tier sizes 2 (balance_tier sizes 1 (balance_tier sizes 0 filled)))
