-- ===== src/Rta/Supernode/Tiers.antt =====
-- The tier that a stake buys.
use graft_ng.Shared.{◌≤◌, ◌↔◌, arith}
use graft_ng.Rta.Crypto.{Crypto}
use graft_ng.Rta.Supernode.{TierAmounts, Supernode, tier}

pub record IsOrdered (t : TierAmounts) : Type 0 where
  pub first : t.tier1 ≤ t.tier2
  pub second : t.tier2 ≤ t.tier3
  pub third : t.tier3 ≤ t.tier4

-- With amounts that do not fall from tier to tier, a supernode is in tier k or above exactly when
-- its stake reaches the amount of tier k, for k from 1 to 4, and no tier is above 4.
pub tier_iff :
    (c : Crypto) (t : TierAmounts) (s : Supernode c)
    → IsOrdered t
    → (1 ≤ tier c t s ↔ t.tier1 ≤ s.stake_amount)
      × (2 ≤ tier c t s ↔ t.tier2 ≤ s.stake_amount)
      × (3 ≤ tier c t s ↔ t.tier3 ≤ s.stake_amount)
      × (4 ≤ tier c t s ↔ t.tier4 ≤ s.stake_amount)
      × (tier c t s ≤ 4)
unfolding tier
tier_iff c t s h = ground arith
