-- ===== src/Blacklist/Examples.antt =====
-- The theorems on requests and bans at concrete inputs.
use graft_ng.Shared.{
  ℕ, ◌≡◌, refl, Bool, true, false, Option, none, some, [], ◌∷◌, arith, if◌then◌else◌, nat_eqb,
  nat_eqb_iff, nat_eq,
}
use graft_ng.Blacklist.{RadixTree, RadixTreeLaws, BlackList, IpMap, inc, process_ip, unban}
use graft_ng.Blacklist.Rates.{burst, burst_limit}
use graft_ng.Blacklist.Bans.{serve, ban_lasts}

abbrev or_new : Bool → Option Bool → Option Bool
or_new v none = some v
or_new v (some w) = some w

-- Entries of full length only, as a function.
abbrev hosts : RadixTree
hosts = record {
  Table = ℕ → Option Bool;
  insert = λ e v t b. if nat_eqb e.0 b then or_new v (t b) else t b;
  erase_entry = λ e t b. if nat_eqb e.0 b then none else t b;
  longest_match = λ e t. t e.0;
}

hosts_laws : RadixTreeLaws hosts
hosts_laws = record {
  insert_new = λ a v t h. ground (arith, h, nat_eqb_iff a a);
  insert_other = λ a b v t d. ground (arith, d, nat_eqb_iff a b);
  erase_other = λ a b t d. ground (arith, d, nat_eqb_iff a b);
}

-- One request a second in windows of two seconds; another address has an old window.
abbrev counts : IpMap
counts = record {
  requests_per_sec = 1;
  wnd_size_sec = 2;
  ipwnd = (9, record { tp_start = 0; count = 1 }) ∷ [];
}

burst_limit_example :
    ((burst 7 (10000000000 ∷ 11000000000 ∷ []) counts).0 ≡ false)
    × ((inc 7 12000000000 (burst 7 (10000000000 ∷ 11000000000 ∷ []) counts).1).0 ≡ true)
burst_limit_example =
    burst_limit 7 10000000000 12000000000 (11000000000 ∷ []) counts refl (omega arith, tt)
      (omega arith) (omega arith) (omega arith)

-- The address 7 has used up its window.
abbrev busy_list : BlackList hosts
busy_list = record {
  table = λ a. if nat_eqb a 5 then some false else none;
  default_allow = true;
  ban_enabled = true;
  ipmap = record {
    requests_per_sec = 1;
    wnd_size_sec = 2;
    ipwnd = (7, record { tp_start = 10000000000; count = 2 }) ∷ [];
  };
  ban_timeout = 60000000000;
  banned_ips = (1000, 5) ∷ [];
}

ban_lasts_example :
    let first = process_ip hosts 7 11000000000 busy_list in
    (first.0 ≡ false)
    × ((process_ip hosts 7 70000000000
          (serve hosts hosts_laws ((12000000000, 7) ∷ (13000000000, 8) ∷ []) first.1)).0
        ≡ false)
unfolding unban inc
ban_lasts_example =
    ban_lasts hosts hosts_laws 7 11000000000 70000000000 ((12000000000, 7) ∷ (13000000000, 8) ∷ [])
      busy_list refl (omega arith) refl refl tt refl (omega arith, (omega arith, tt)) (omega arith)
