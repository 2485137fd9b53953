-- ===== src/Blacklist/Bans.antt =====
-- How long an address stays banned.
use graft_ng.Shared.{
  ℕ, ◌+◌, ◌≤◌, ◌<◌, ◌≡◌, ◌≢◌, refl, ◌⊎◌, true, false, not, none, some, List, [], ◌∷◌, arith, inl,
  inr, ltb, nat_eqb, nat_eqb_iff, ◌&&◌, All, All-append, Bool-cases, ◌∙◌, ap, sym, subst,
}
use graft_ng.Blacklist.{
  RadixTree, RadixTreeLaws, BlackList, inc, find, unban_from, unban, ban, admit, process_ip,
  remove_entry,
}

module _ (r : RadixTree) (laws : RadixTreeLaws r) where
  -- The item does not name the address, or is not due before the time.
  abbrev Harmless : ℕ → ℕ → ℕ × ℕ → Type 0
  Harmless addr until i = (i.1 ≢ addr) ⊎ (until ≤ i.0)

  record IsBanned (addr until : ℕ) (b : BlackList r) : Type 0 where
    denied : r.longest_match (addr, 32) b.table ≡ some false
    items : All (Harmless addr until) b.banned_ips

  unban_from-IsBanned :
      (addr until now : ℕ) (q : List (ℕ × ℕ)) (b : BlackList r)
      → r.longest_match (addr, 32) b.table ≡ some false
      → All (Harmless addr until) q
      → now < until
      → IsBanned addr until (unban_from r now q b)
  unfolding unban_from
  unban_from-IsBanned addr until now [] b d h l = record { denied = d; items = tt }
  unban_from-IsBanned addr until now ((t, a) ∷ q) b d h l = elim (Bool-cases (ltb now t)) [
    | inl wait ↦ rw wait (record { denied = d; items = h })
    | inr due ↦
        let other : a ≢ addr = ground (arith, h.0) in
        rw due (
          unban_from-IsBanned addr until now q (remove_entry r a b)
            (laws.erase_other a addr b.table other ∙ d) h.1 l)
  ]

  ban-IsBanned :
      (addr until a now : ℕ) (b : BlackList r)
      → IsBanned addr until b
      → a ≢ addr
      → IsBanned addr until (ban r a now b)
  unfolding ban
  ban-IsBanned addr until a now b h other =
      let d = laws.insert_other a addr false b.table other ∙ h.denied in
      elim (Bool-cases (nat_eqb b.ban_timeout 0)) [
        | inl never ↦ rw never (record { denied = d; items = h.items })
        | inr later ↦ rw later (record {
          denied = d;
          items =
              All-append (Harmless addr until) b.banned_ips ((now + b.ban_timeout, a) ∷ []) h.items
                (inl other, tt);
        })
      ]

  find_banned :
      (addr until : ℕ) (b : BlackList r) → IsBanned addr until b → find r addr b ≡ (true, false)
  unfolding find
  find_banned addr until b h = ground (arith, h.denied)

  admit_banned :
      (addr until now : ℕ) (b : BlackList r)
      → IsBanned addr until b
      → admit r addr now b ≡ (false, b)
  unfolding admit
  admit_banned addr until now b h = rw (find_banned addr until b h) refl

  allowed_other :
      (addr until a : ℕ) (b : BlackList r)
      → IsBanned addr until b
      → (find r a b).1 ≡ true
      → a ≢ addr
  allowed_other addr until a b h allowed e =
      ground (arith, find_banned addr until b h, ap (λ x. find r x b) e, allowed)

  -- What `admit` leaves: the same, or the request counted, or the address banned.
  admit_triggered :
      (a now : ℕ) (b : BlackList r)
      → (find r a b).1 ≡ true
      → b.ban_enabled ≡ true
      → (inc a now b.ipmap).0 ≡ true
      → admit r a now b ≡ (false, ban r a now (record b { ipmap = (inc a now b.ipmap).1 }))
  unfolding admit
  admit_triggered a now b allowed on triggered = simp (admit, allowed, on, triggered) refl

  admit_counted :
      (a now : ℕ) (b : BlackList r)
      → (find r a b).1 ≡ true
      → b.ban_enabled ≡ true
      → (inc a now b.ipmap).0 ≡ false
      → admit r a now b ≡ (true, record b { ipmap = (inc a now b.ipmap).1 })
  unfolding admit
  admit_counted a now b allowed on calm = simp (admit, allowed, on, calm) refl

  admit-IsBanned :
      (addr until a now : ℕ) (b : BlackList r)
      → IsBanned addr until b
      → IsBanned addr until (admit r a now b).1
  unfolding admit
  admit-IsBanned addr until a now b h =
      let counted : BlackList r = record b { ipmap = (inc a now b.ipmap).1 } in
      let still : IsBanned addr until counted = record { denied = h.denied; items = h.items } in
      elim (Bool-cases (find r a b).1) [
        | inr denied ↦ rw (admit, denied) h
        | inl allowed ↦ elim (Bool-cases b.ban_enabled) [
          | inr off ↦ simp (admit, allowed, off) h
          | inl on ↦ elim (Bool-cases (inc a now b.ipmap).0) [
            | inr calm ↦ rw (admit_counted a now b allowed on calm) still
            | inl triggered ↦ rw (admit_triggered a now b allowed on triggered) (
                ban-IsBanned addr until a now counted still
                  (allowed_other addr until a b h allowed))
          ]
        ]
      ]

  process_ip-IsBanned :
      (addr until a now : ℕ) (b : BlackList r)
      → IsBanned addr until b
      → now < until
      → IsBanned addr until (process_ip r a now b).1
  unfolding process_ip unban
  process_ip-IsBanned addr until a now b h l =
      elim (Bool-cases (b.ban_enabled && not (nat_eqb b.ban_timeout 0))) [
        | inl on ↦
            rw (process_ip, on)
              (admit-IsBanned addr until a now (unban_from r now b.banned_ips b)
                (unban_from-IsBanned addr until now b.banned_ips b h.denied h.items l))
        | inr off ↦ rw (process_ip, off) (admit-IsBanned addr until a now b h)
      ]

  process_ip_banned :
      (addr until now : ℕ) (b : BlackList r)
      → IsBanned addr until b
      → now < until
      → (process_ip r addr now b).0 ≡ false
  unfolding process_ip unban
  process_ip_banned addr until now b h l =
      elim (Bool-cases (b.ban_enabled && not (nat_eqb b.ban_timeout 0))) [
        | inl on ↦
            rw (process_ip, on)
              (ap (λ x. x.0)
                (admit_banned addr until now (unban_from r now b.banned_ips b)
                  (unban_from-IsBanned addr until now b.banned_ips b h.denied h.items l)))
        | inr off ↦ rw (process_ip, off) (ap (λ x. x.0) (admit_banned addr until now b h))
      ]

  -- Requests, each with its time and its address, one after the other.
  abbrev pub serve : List (ℕ × ℕ) → BlackList r → BlackList r
  serve [] b = b
  serve (q ∷ qs) b = serve qs (process_ip r q.1 q.0 b).1

  serve-IsBanned :
      (addr until : ℕ) (qs : List (ℕ × ℕ)) (b : BlackList r)
      → IsBanned addr until b
      → All (λ q. q.0 < until) qs
      → IsBanned addr until (serve qs b)
  serve-IsBanned addr until [] b h l = h
  serve-IsBanned addr until (q ∷ qs) b h l =
      serve-IsBanned addr until qs (process_ip r q.1 q.0 b).1
        (process_ip-IsBanned addr until q.1 q.0 b h l.0) l.1

  no_items :
      (addr until : ℕ) (q : List (ℕ × ℕ)) → All (λ i. i.1 ≢ addr) q → All (Harmless addr until) q
  no_items addr until [] h = tt
  no_items addr until (i ∷ q) h = (inl h.0, no_items addr until q h.1)

  ban_start :
      (addr now : ℕ) (b : BlackList r)
      → b.ban_timeout ≢ 0
      → r.longest_match (addr, 32) b.table ≡ none
      → All (λ i. i.1 ≢ addr) b.banned_ips
      → IsBanned addr (now + b.ban_timeout) (ban r addr now b)
  unfolding ban
  ban_start addr now b h0 free clear =
      let until = now + b.ban_timeout in
      let later : nat_eqb b.ban_timeout 0 ≡ false = ground (arith, nat_eqb_iff b.ban_timeout 0) in
      rw (ban, later)
        (record {
          denied = laws.insert_new addr false b.table free;
          items =
              All-append (Harmless addr until) b.banned_ips ((until, addr) ∷ [])
                (no_items addr until b.banned_ips clear) (inr (omega arith), tt);
        })

  -- What the end of bans does not change.
  record Keeps (b after : BlackList r) : Type 0 where
    enabled : after.ban_enabled ≡ b.ban_enabled
    timeout : after.ban_timeout ≡ b.ban_timeout
    allow : after.default_allow ≡ b.default_allow
    counts : after.ipmap ≡ b.ipmap

  unban_from-Keeps : (now : ℕ) (q : List (ℕ × ℕ)) (b : BlackList r) → Keeps b (unban_from r now q b)
  unfolding unban_from
  unban_from-Keeps now [] b = record { enabled = refl; timeout = refl; allow = refl; counts = refl }
  unban_from-Keeps now ((t, a) ∷ q) b = elim (Bool-cases (ltb now t)) [
    | inl wait ↦ rw wait (record { enabled = refl; timeout = refl; allow = refl; counts = refl })
    | inr due ↦
        let rest = unban_from-Keeps now q (remove_entry r a b) in
        rw due (record {
          enabled = rest.enabled;
          timeout = rest.timeout;
          allow = rest.allow;
          counts = rest.counts;
        })
  ]

  process_ip_enabled :
      (addr now : ℕ) (b : BlackList r)
      → b.ban_enabled ≡ true
      → b.ban_timeout ≢ 0
      → process_ip r addr now b ≡ admit r addr now (unban r now b)
  unfolding process_ip
  process_ip_enabled addr now b on h0 =
      let timed : nat_eqb b.ban_timeout 0 ≡ false = ground (arith, nat_eqb_iff b.ban_timeout 0) in
      simp (process_ip, on, timed) refl

  -- Banning is on, with a ban time; no rule matches an address, which is allowed by default, and it
  -- is not in the queue of bans when those that are over have been lifted. When a request of it
  -- triggers, the request is refused, and so is each later request of it before the ban time is
  -- over, whatever requests of any addresses have been served in between.
  pub ban_lasts :
      (addr now t : ℕ) (qs : List (ℕ × ℕ)) (b : BlackList r)
      → b.ban_enabled ≡ true
      → b.ban_timeout ≢ 0
      → b.default_allow ≡ true
      → r.longest_match (addr, 32) (unban r now b).table ≡ none
      → All (λ i. i.1 ≢ addr) (unban r now b).banned_ips
      → (inc addr now b.ipmap).0 ≡ true
      → All (λ q. q.0 < now + b.ban_timeout) qs
      → t < now + b.ban_timeout
      → let first = process_ip r addr now b in
        (first.0 ≡ false) × ((process_ip r addr t (serve qs first.1)).0 ≡ false)
  unfolding unban find
  ban_lasts addr now t qs b on h0 allow free clear hit hq ht =
      let u = unban r now b in
      let k = unban_from-Keeps now b.banned_ips b in
      let counted : BlackList r = record u { ipmap = (inc addr now u.ipmap).1 } in
      let allowed : (find r addr u).1 ≡ true = rw (find, free) (k.allow ∙ allow) in
      let hit' : (inc addr now u.ipmap).0 ≡ true = ap (λ p. (inc addr now p).0) k.counts ∙ hit in
      let now_banned : process_ip r addr now b ≡ (false, ban r addr now counted) =
        process_ip_enabled addr now b on h0
        ∙ admit_triggered addr now u allowed (k.enabled ∙ on) hit' in
      let banned : IsBanned addr (now + b.ban_timeout) (ban r addr now counted) =
        subst (λ n. IsBanned addr (now + n) (ban r addr now counted)) k.timeout
          (ban_start addr now counted (λ e. h0 (sym k.timeout ∙ e)) free clear) in
      rw now_banned (
        refl,
        process_ip_banned addr (now + b.ban_timeout) t (serve qs (ban r addr now counted))
            (serve-IsBanned addr (now + b.ban_timeout) qs (ban r addr now counted) banned hq) ht,
      )
