-- ===== src/Rta/SupernodeList/Balance/Inv.antt =====
-- The proof that `balance` fills the sample as far as the tiers allow.
use graft_ng.Shared.{
  ℕ, zero, suc, ◌+◌, ◌-◌, ◌≤◌, ◌<◌, min, ◌≡◌, ◌⊎◌, inl, inr, ltb, arith, Bool-cases,
}
use graft_ng.Rta.SupernodeList.Balance.{
  Four, get4, total, transfer_from, make_up, balance_tier, balance, filled,
}

-- A tier before k asks for no more than it has, a tier from k on for no more than it has or its
-- share. As long as the sample is not full, nothing that a tier has is left out.
pub record IsBalanced (k : ℕ) (sizes select : Four ℕ) : Type 0 where
  pub bound0 : (select.at0 ≤ sizes.at0) ⊎ ((select.at0 ≤ 2) × (k ≤ 0))
  pub bound1 : (select.at1 ≤ sizes.at1) ⊎ ((select.at1 ≤ 2) × (k ≤ 1))
  pub bound2 : (select.at2 ≤ sizes.at2) ⊎ ((select.at2 ≤ 2) × (k ≤ 2))
  pub bound3 : (select.at3 ≤ sizes.at3) ⊎ ((select.at3 ≤ 2) × (k ≤ 3))
  pub full :
      (total select ≡ 8)
      ⊎ ((total select ≤ 8)
          × (sizes.at0 ≤ select.at0)
          × (sizes.at1 ≤ select.at1)
          × (sizes.at2 ≤ select.at2)
          × (sizes.at3 ≤ select.at3))

-- What the inner loop for tier i, from `s0` with `d0` missing, has done to tier k when the tiers
-- from j on are behind it.
abbrev Fact : Four ℕ → Four ℕ → Four ℕ → ℕ → ℕ → ℕ → ℕ → Type 0
Fact n s0 s d i j k =
    (k ≡ i)
    ⊎ ((get4 s0 k ≤ get4 s k)
        × ((get4 s k ≡ get4 s0 k) ⊎ (get4 s k ≤ get4 n k))
        × ((k < j) ⊎ (d ≡ 0) ⊎ (get4 n k ≤ get4 s k)))

record MadeUp (n s0 : Four ℕ) (d0 i j d : ℕ) (s : Four ℕ) : Type 0 where
  kept : total s ≡ total s0
  moved : get4 s i + d0 ≡ get4 s0 i + d
  fewer : d ≤ d0
  enough : d0 ≤ get4 s0 i
  fact0 : Fact n s0 s d i j 0
  fact1 : Fact n s0 s d i j 1
  fact2 : Fact n s0 s d i j 2
  fact3 : Fact n s0 s d i j 3

transfer_from-MadeUp :
    (n s0 s : Four ℕ) (d0 d i j : ℕ)
    → i < 4
    → j < 4
    → MadeUp n s0 d0 i (suc j) d s
    → MadeUp n s0 d0 i j (transfer_from n i j d s).0 (transfer_from n i j d s).1
unfolding transfer_from
transfer_from-MadeUp n s0 s d0 d zero zero hi hj m = ground arith
transfer_from-MadeUp n s0 s d0 d (suc zero) (suc zero) hi hj m = ground arith
transfer_from-MadeUp n s0 s d0 d (suc (suc zero)) (suc (suc zero)) hi hj m = ground arith
transfer_from-MadeUp n s0 s d0 d (suc (suc (suc zero))) (suc (suc (suc zero))) hi hj m =
    ground arith
transfer_from-MadeUp n s0 s d0 d _ _ hi hj m = ground arith

-- With nothing missing every tier counts as behind.
stop-MadeUp :
    (n s0 s : Four ℕ) (d0 d i j : ℕ) → d ≡ 0 → MadeUp n s0 d0 i j d s → MadeUp n s0 d0 i 0 d s
stop-MadeUp n s0 s d0 d i j e m = ground arith

make_up-MadeUp :
    (n s0 s : Four ℕ) (d0 d i j : ℕ)
    → i < 4
    → j ≤ 4
    → MadeUp n s0 d0 i j d s
    → MadeUp n s0 d0 i 0 (make_up n i j d s).0 (make_up n i j d s).1
unfolding make_up
make_up-MadeUp n s0 s d0 d i zero hi hj m = m
make_up-MadeUp n s0 s d0 d i (suc j) hi hj m = elim (Bool-cases (ltb 0 d)) [
  | inl more ↦ rw more (
      make_up-MadeUp n s0 (transfer_from n i j d s).1 d0 (transfer_from n i j d s).0 i j hi
        (omega arith) (transfer_from-MadeUp n s0 s d0 d i j hi hj m))
  | inr none_left ↦
      let e : d ≡ 0 = ground arith in rw none_left (stop-MadeUp n s0 s d0 d i (suc j) e m)
]

start-MadeUp :
    (n s : Four ℕ) (i : ℕ) → i < 4 → MadeUp n s (get4 s i - get4 n i) i 4 (get4 s i - get4 n i) s
start-MadeUp n s zero h = ground arith
start-MadeUp n s (suc zero) h = ground arith
start-MadeUp n s _ h = ground arith

abbrev deficit_of : Four ℕ → Four ℕ → ℕ → ℕ
deficit_of n s i = get4 s i - get4 n i

made_up :
    (n s : Four ℕ) (i : ℕ)
    → i < 4
    → MadeUp n s
        (deficit_of n s i)
        i
        0
        (make_up n i 4 (deficit_of n s i) s).0
        (make_up n i 4 (deficit_of n s i) s).1
made_up n s i h = make_up-MadeUp n s s _ _ i 4 h (omega arith) (start-MadeUp n s i h)

balance_tier-IsBalanced0 : (n s : Four ℕ) → IsBalanced 0 n s → IsBalanced 1 n (balance_tier n 0 s)
unfolding balance_tier
balance_tier-IsBalanced0 n s h = ground (arith, made_up n s 0 (omega arith))

balance_tier-IsBalanced1 : (n s : Four ℕ) → IsBalanced 1 n s → IsBalanced 2 n (balance_tier n 1 s)
unfolding balance_tier
balance_tier-IsBalanced1 n s h = ground (arith, made_up n s 1 (omega arith))

balance_tier-IsBalanced2 : (n s : Four ℕ) → IsBalanced 2 n s → IsBalanced 3 n (balance_tier n 2 s)
unfolding balance_tier
balance_tier-IsBalanced2 n s h = ground (arith, made_up n s 2 (omega arith))

balance_tier-IsBalanced3 : (n s : Four ℕ) → IsBalanced 3 n s → IsBalanced 4 n (balance_tier n 3 s)
unfolding balance_tier
balance_tier-IsBalanced3 n s h = ground (arith, made_up n s 3 (omega arith))

filled-IsBalanced : (n : Four ℕ) → IsBalanced 0 n filled
filled-IsBalanced n = ground arith

balance-IsBalanced : (n : Four ℕ) → IsBalanced 4 n (balance n)
unfolding balance
balance-IsBalanced n = balance_tier-IsBalanced3 n _ (
    balance_tier-IsBalanced2 n _
      (balance_tier-IsBalanced1 n _ (balance_tier-IsBalanced0 n _ (filled-IsBalanced n))))

-- Whatever the four tiers hold, no tier is asked for more supernodes than it has, and together
-- they give eight, or all that they have if that is fewer.
pub balance_fills :
    (n : Four ℕ)
    → ((balance n).at0 ≤ n.at0)
      × ((balance n).at1 ≤ n.at1)
      × ((balance n).at2 ≤ n.at2)
      × ((balance n).at3 ≤ n.at3)
      × (total (balance n) ≡ min 8 (total n))
balance_fills n = ground (arith, balance-IsBalanced n)
