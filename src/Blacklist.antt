-- ===== src/Blacklist.antt =====
-- `IpMap` and `BlackListImpl` of src/lib/graft/blacklist.cpp. Addresses are numbers in host order.
-- The steady clock is an argument, in nanoseconds, and is read once for a call. The radix tree that
-- holds the rules comes from another project and is a parameter. Reading rules from a file and the
-- warnings are left out.
pub mod Rates
pub mod Bans
mod Examples
use graft_ng.Shared.{
  ℕ, suc, ◌+◌, ◌-◌, ◌*◌, ◌/◌, Bool, true, false, not, ◌&&◌, Option, none, some, List, [], ◌∷◌, ◌++◌,
  if◌then◌else◌, ltb, leb, nat_eqb, nat_eq, lookup, assign, erase, ◌≡◌, ◌≢◌,
}

abbrev pub one_sec : ℕ
one_sec = 1000000000

pub record Window : Type 0 where
  pub tp_start : ℕ
  pub count : ℕ

-- The constructor of `Window`.
abbrev pub new_window : ℕ → Window
new_window now = record { tp_start = now; count = 1 }

-- The map lists its entries in the order of their addresses.
pub record IpMap : Type 0 where
  pub requests_per_sec : ℕ
  pub wnd_size_sec : ℕ
  pub ipwnd : List (ℕ × Window)

abbrev pub wnd_size : IpMap → ℕ
wnd_size p = p.wnd_size_sec * one_sec

-- The body of the loop of `inc`: the window after the request, and whether it has triggered.
unfoldable pub count_request : IpMap → ℕ → Window → Window × Bool
count_request p now w =
    let tp_end = w.tp_start + wnd_size p in
    let secs = (now - tp_end) / one_sec in
    let late = ltb (tp_end + one_sec) now in
    let count = if late then w.count - secs * p.requests_per_sec else w.count in
    if ltb (tp_end + wnd_size p) now
    then (new_window now, false)
    else if late && nat_eqb count 0
    then (new_window now, false)
    else (
      record {
        tp_start = if late then w.tp_start + secs * one_sec else w.tp_start;
        count = count + 1;
      },
      ltb (p.wnd_size_sec * p.requests_per_sec) (count + 1),
    )

-- `emplace` of an address that is not in the map.
unfoldable pub emplace_in_order : ℕ → Window → List (ℕ × Window) → List (ℕ × Window)
emplace_in_order addr v [] = (addr, v) ∷ []
emplace_in_order addr v ((j, w) ∷ m) =
    if ltb addr j then (addr, v) ∷ (j, w) ∷ m else (j, w) ∷ emplace_in_order addr v m

abbrev pub first_entry : List (ℕ × Window) → Option (ℕ × Window)
first_entry [] = none
first_entry (e ∷ m) = some e

-- The entry after the address, or the first entry of all.
unfoldable pub neighbor : ℕ → List (ℕ × Window) → List (ℕ × Window) → Option (ℕ × Window)
neighbor addr [] whole = first_entry whole
neighbor addr ((j, w) ∷ m) whole = if ltb addr j then some (j, w) else neighbor addr m whole

-- The second half of `removeItAndNeighbor`.
unfoldable pub remove_neighbor : ℕ → ℕ → Option (ℕ × Window) → List (ℕ × Window) → List (ℕ × Window)
remove_neighbor size now none m = m
remove_neighbor size now (some e) m =
    if leb (e.1.tp_start + size + size) now then erase e.0 m else m

unfoldable pub remove_it_and_neighbor : ℕ → ℕ → Bool → ℕ → List (ℕ × Window) → List (ℕ × Window)
unfolding neighbor remove_neighbor
remove_it_and_neighbor size addr triggered now m =
    let kept = if triggered then erase addr m else m in
    remove_neighbor size now (neighbor addr kept kept) kept

-- `true` if triggered.
unfoldable pub inc : ℕ → ℕ → IpMap → Bool × IpMap
unfolding count_request emplace_in_order remove_it_and_neighbor
inc addr now p = elim (lookup addr p.ipwnd) [
  | some w ↦
      let res = count_request p now w in
      (
        res.1,
        record p {
          ipwnd = remove_it_and_neighbor (wnd_size p) addr res.1 now (assign addr res.0 p.ipwnd);
        },
      )
  | none ↦ (
    false,
    record p {
      ipwnd =
          remove_it_and_neighbor (wnd_size p) addr false now
            (emplace_in_order addr (new_window now) p.ipwnd);
    },
  )
]

-- `radix_tree<RtEntry, Allow>`: an entry is an address with the length of its prefix. `insert`
-- leaves an entry that is there as it is.
pub record RadixTree : Type 1 where
  pub Table : Type 0
  pub insert : ℕ × ℕ → Bool → Table → Table
  pub erase_entry : ℕ × ℕ → Table → Table
  pub longest_match : ℕ × ℕ → Table → Option Bool

-- What the code relies on of the tree, for entries of full length: such an entry matches no other
-- address, and a new one is the longest match of its own.
pub record RadixTreeLaws (r : RadixTree) : Type 0 where
  pub insert_new :
      (a : ℕ) (v : Bool) (t : r.Table)
      → r.longest_match (a, 32) t ≡ none
      → r.longest_match (a, 32) (r.insert (a, 32) v t) ≡ some v
  pub insert_other :
      (a b : ℕ) (v : Bool) (t : r.Table)
      → a ≢ b
      → r.longest_match (b, 32) (r.insert (a, 32) v t) ≡ r.longest_match (b, 32) t
  pub erase_other :
      (a b : ℕ) (t : r.Table)
      → a ≢ b
      → r.longest_match (b, 32) (r.erase_entry (a, 32) t) ≡ r.longest_match (b, 32) t

module _ (r : RadixTree) where
  pub record BlackList : Type 0 where
    pub table : r.Table
    pub default_allow : Bool
    pub ban_enabled : Bool
    pub ipmap : IpMap
    pub ban_timeout : ℕ
    pub banned_ips : List (ℕ × ℕ)

  abbrev pub match_or : Bool → Option Bool → Bool × Bool
  match_or allow none = (false, allow)
  match_or allow (some v) = (true, v)

  -- Whether a rule is found, and whether the address is allowed.
  unfoldable pub find : ℕ → BlackList → Bool × Bool
  find addr b = match_or b.default_allow (r.longest_match (addr, 32) b.table)

  abbrev pub add_entry : ℕ → Bool → ℕ → BlackList → BlackList
  add_entry addr allow len b = record b { table = r.insert (addr, len) allow b.table }

  abbrev pub remove_entry : ℕ → BlackList → BlackList
  remove_entry addr b = record b { table = r.erase_entry (addr, 32) b.table }

  -- The loop of `unban`, over the items from the front on.
  unfoldable pub unban_from : ℕ → List (ℕ × ℕ) → BlackList → BlackList
  unban_from now [] b = record b { banned_ips = [] }
  unban_from now ((until, addr) ∷ q) b =
      let rest = unban_from now q (remove_entry addr b) in
      if ltb now until then record b { banned_ips = (until, addr) ∷ q } else rest

  unfoldable pub unban : ℕ → BlackList → BlackList
  unfolding unban_from
  unban now b = unban_from now b.banned_ips b

  unfoldable pub ban : ℕ → ℕ → BlackList → BlackList
  ban addr now b0 =
      let b = add_entry addr false 32 b0 in
      if nat_eqb b.ban_timeout 0
      then b
      else record b { banned_ips = b.banned_ips ++ (now + b.ban_timeout, addr) ∷ [] }

  -- `processIp` after the call of `unban`: whether the request is let through.
  unfoldable pub admit : ℕ → ℕ → BlackList → Bool × BlackList
  unfolding find inc ban
  admit addr now b =
      let res = inc addr now b.ipmap in
      let counted = record b { ipmap = res.1 } in
      if not (find addr b).1
      then (false, b)
      else if not b.ban_enabled
      then (true, b)
      else if res.0
      then (false, ban addr now counted)
      else (true, counted)

  unfoldable pub process_ip : ℕ → ℕ → BlackList → Bool × BlackList
  unfolding unban admit
  process_ip addr now b =
      admit addr now (if b.ban_enabled && not (nat_eqb b.ban_timeout 0) then unban now b else b)
