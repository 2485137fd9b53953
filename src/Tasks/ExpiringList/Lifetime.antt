-- ===== src/Tasks/ExpiringList/Lifetime.antt =====
-- How long an entry of the expiring list lives.
use graft_ng.Shared.{
  ℕ, ◌+◌, ◌≤◌, ◌<◌, ◌≡◌, ◌≢◌, refl, none, some, List, [], ◌∷◌, ◌++◌, arith, inl, inr, ltb, All,
  All-append, Bool-cases,
}
use graft_ng.Tasks.ExpiringList.{Entry, lower_bound, chop, add, find_and_erase, extract}

module _ {V : Type 0} where
  -- No entry has the uuid.
  abbrev pub Without : ℕ → List (Entry V) → Type 0
  Without u es = All (λ e. e.uuid ≢ u) es

  Without-lower_bound :
      (now u : ℕ) (es : List (Entry V)) → Without u es → Without u (lower_bound now es)
  unfolding lower_bound
  Without-lower_bound now u [] h = tt
  Without-lower_bound now u (e ∷ es) h = ground (arith, Without-lower_bound now u es h.1)

  pub Without-chop : (now u : ℕ) (es : List (Entry V)) → Without u es → Without u (chop now es)
  unfolding chop
  Without-chop now u [] h = tt
  Without-chop now u (e ∷ es) h = ground (arith, Without-lower_bound now u es h.1)

  find_and_erase-Without :
      (u : ℕ) (es : List (Entry V)) (e : Entry V)
      → Without u es
      → e.uuid ≡ u
      → find_and_erase u (es ++ e ∷ []) ≡ (some e.value, es)
  unfolding find_and_erase
  find_and_erase-Without u [] e h k = ground arith
  find_and_erase-Without u (x ∷ es) e h k = ground (arith, find_and_erase-Without u es e h.1 k)

  pub find_and_erase-missing :
      (u : ℕ) (es : List (Entry V)) → Without u es → find_and_erase u es ≡ (none, es)
  unfolding find_and_erase
  find_and_erase-missing u [] h = refl
  find_and_erase-missing u (x ∷ es) h = ground (arith, find_and_erase-missing u es h.1)

  -- Dropping a prefix keeps a live entry at the end, and drops a dead one when all before it are.
  lower_bound-live :
      (now : ℕ) (es : List (Entry V)) (e : Entry V)
      → now < e.expires
      → lower_bound now (es ++ e ∷ []) ≡ lower_bound now es ++ e ∷ []
  unfolding lower_bound
  lower_bound-live now [] e h = ground arith
  lower_bound-live now (x ∷ es) e h = ground (arith, lower_bound-live now es e h)

  lower_bound-dead :
      (now : ℕ) (es : List (Entry V)) → All (λ e. e.expires < now) es → lower_bound now es ≡ []
  unfolding lower_bound
  lower_bound-dead now [] h = refl
  lower_bound-dead now (x ∷ es) h = ground (arith, lower_bound-dead now es h.1)

  chop-live :
      (now : ℕ) (es : List (Entry V)) (e : Entry V)
      → now < e.expires
      → chop now (es ++ e ∷ []) ≡ chop now es ++ e ∷ []
  unfolding chop
  chop-live now [] e h = ground arith
  chop-live now (x ∷ es) e h = ground (arith, lower_bound-live now es e h)

  chop-dead : (now : ℕ) (es : List (Entry V)) → All (λ e. e.expires < now) es → chop now es ≡ []
  unfolding chop
  chop-dead now [] h = refl
  chop-dead now (x ∷ es) h = ground (arith, lower_bound-dead now es h.1)

  chop-All : (P : Entry V → Type 0) (now : ℕ) (es : List (Entry V)) → All P es → All P (chop now es)
  unfolding chop
  chop-All P now [] h = tt
  chop-All P now (e ∷ es) h = elim (Bool-cases (ltb now e.expires)) [
    | inl live ↦ rw live h
    | inr dead ↦ rw dead (tail es h.1)
  ]
    where
      tail : (xs : List (Entry V)) → All P xs → All P (lower_bound now xs)
      tail [] k = tt
      tail (x ∷ xs) k = elim (Bool-cases (ltb x.expires now)) [
        | inl old ↦ rw old (tail xs k.1)
        | inr young ↦ rw young k
      ]

  -- A uuid that was not in the list can be taken out with its value at any time before its life
  -- time is over, and is then gone; the entries that have not been chopped stay.
  pub extract-add_live :
      (delta t later u : ℕ) (v : V) (es : List (Entry V))
      → Without u es
      → later < t + delta
      → extract later u (add delta t u v es) ≡ (some v, chop later (chop t es))
  unfolding extract add
  extract-add_live delta t later u v es h live =
      let e : Entry V = record { expires = t + delta; uuid = u; value = v } in
      rw (chop-live later (chop t es) e live) (
        find_and_erase-Without u (chop later (chop t es)) e
          (Without-chop later u (chop t es) (Without-chop t u es h)) refl)

  -- When its life time is over, and no entry that was there before lives longer, nothing is found
  -- and nothing is left.
  pub extract-add_expired :
      (delta t later u : ℕ) (v : V) (es : List (Entry V))
      → All (λ e. e.expires ≤ t + delta) es
      → t + delta < later
      → extract later u (add delta t u v es) ≡ (none, [])
  unfolding extract add find_and_erase
  extract-add_expired delta t later u v es h over =
      let e : Entry V = record { expires = t + delta; uuid = u; value = v } in
      rw (
        chop-dead later (chop t es ++ e ∷ []) (
          All-append (λ x. x.expires < later) (chop t es) (e ∷ [])
            (chop-All (λ x. x.expires < later) t es (before es h)) (over, tt)))
    where
      before :
          (xs : List (Entry V))
          → All (λ x. x.expires ≤ t + delta) xs
          → All (λ x. x.expires < later) xs
      before [] k = tt
      before (x ∷ xs) k = (omega arith, before xs k.1)
