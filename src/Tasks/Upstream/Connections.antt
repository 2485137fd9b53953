-- ===== src/Tasks/Upstream/Connections.antt =====
-- What the operations of an item do to its connections.
use mathlib.Core.Option.{none-ne-some}
use mathlib.Core.Bool.{true≢false}
use graft_ng.Shared.{
  ℕ, suc, ◌+◌, ◌≤◌, ◌<◌, ◌≡◌, ◌⊎◌, inl, inr, refl, sym, ap, String, Bool, true, false, not, ◌||◌,
  Option, none, some, List, [], ◌∷◌, if◌then◌else◌, leb, nat_eqb, lookup, has_key, emplace, nat_eq,
  length, arith, Bool-cases,
}
use graft_ng.Tasks.Upstream.{ran, ConnItem, Sender, emplace_idle, take_key, create_upstream_sender}

-- How often a number is the identifier of an active connection, and of an idle one.
abbrev pub times_key {ℓ} : {V : Type ℓ} → ℕ → List (ℕ × V) → ℕ
times_key k [] = 0
times_key k ((j, v) ∷ m) = (if nat_eqb j k then 1 else 0) + times_key k m

abbrev pub times_value : ℕ → List (ℕ × ℕ) → ℕ
times_value k [] = 0
times_value k ((j, v) ∷ m) = (if nat_eqb v k then 1 else 0) + times_value k m

module _ {ℓ} {V : Type ℓ} where
  unheld : (k : ℕ) (m : List (ℕ × V)) → times_key k m ≡ 0 → has_key k m ≡ false
  unheld k [] h = refl
  unheld k ((j, v) ∷ m) h = ground (arith, unheld k m)

  length-emplace :
      (k : ℕ) (v : V) (m : List (ℕ × V))
      → times_key k m ≡ 0
      → length (emplace k v m) ≡ suc (length m)
  length-emplace k v [] h = refl
  length-emplace k v ((j, w) ∷ m) h = ground (arith, length-emplace k v m)

  times_key-emplace :
      (k n : ℕ) (v : V) (m : List (ℕ × V))
      → times_key k m ≡ 0
      → times_key n (emplace k v m) ≡ times_key n m + (if nat_eqb k n then 1 else 0)
  times_key-emplace k n v [] h = ground arith
  times_key-emplace k n v ((j, w) ∷ m) h = ground (arith, times_key-emplace k n v m)

  first_found :
      (j k : ℕ) (w v : V) (m : List (ℕ × V))
      → nat_eqb j k ≡ true
      → lookup k ((j, w) ∷ m) ≡ some v
      → take_key k ((j, w) ∷ m) ≡ some (v, m)
  unfolding take_key
  first_found j k w v m e h = ground arith

  later_found :
      (j k : ℕ) (w v : V) (m r : List (ℕ × V))
      → nat_eqb j k ≡ false
      → take_key k m ≡ some (v, r)
      → take_key k ((j, w) ∷ m) ≡ some (v, (j, w) ∷ r)
  unfolding take_key
  later_found j k w v m r e h = rw (take_key, e, h) refl

  -- What is held under a key can be taken out.
  pub take_key-lookup :
      (k : ℕ) (v : V) (m : List (ℕ × V))
      → lookup k m ≡ some v
      → (r : List (ℕ × V)) × (take_key k m ≡ some (v, r))
        × (length m ≡ suc (length r))
        × ((n : ℕ) → times_key n m ≡ times_key n r + (if nat_eqb k n then 1 else 0))
  take_key-lookup k v [] h = absurd (none-ne-some v h)
  take_key-lookup k v ((j, w) ∷ m) h = elim (Bool-cases (nat_eqb j k)) [
    | inl e ↦ (m, first_found j k w v m e h, refl, λ n. ground arith)
    | inr e ↦
        let (r, took, size, counts) = take_key-lookup k v m (ground arith) in
        ((j, w) ∷ r, later_found j k w v m r e took, ap suc size, λ n. omega (arith, counts n))
  ]

-- The identifiers of the idle connections, of which one is taken out.
pub idle_taken :
    (k v : ℕ) (m : List (ℕ × ℕ))
    → lookup k m ≡ some v
    → (r : List (ℕ × ℕ)) × (take_key k m ≡ some (v, r))
      × (length m ≡ suc (length r))
      × ((n : ℕ) → times_value n m ≡ times_value n r + (if nat_eqb v n then 1 else 0))
idle_taken k v [] h = absurd (none-ne-some v h)
idle_taken k v ((j, w) ∷ m) h = elim (Bool-cases (nat_eqb j k)) [
  | inl e ↦
      let same : w ≡ v = ground arith in (m, first_found j k w v m e h, refl, λ n. ground arith)
  | inr e ↦
      let (r, took, size, counts) = idle_taken k v m (ground arith) in
      ((j, w) ∷ r, later_found j k w v m r e took, ap suc size, λ n. omega (arith, counts n))
]

-- An address that is not idle becomes so.
pub length-emplace_idle :
    (k v : ℕ) (m : List (ℕ × ℕ)) → lookup k m ≡ none → length (emplace_idle k v m) ≡ suc (length m)
unfolding emplace_idle
length-emplace_idle k v [] h = refl
length-emplace_idle k v ((j, w) ∷ m) h = ground (arith, length-emplace_idle k v m)

pub times_value-emplace_idle :
    (k v n : ℕ) (m : List (ℕ × ℕ))
    → lookup k m ≡ none
    → times_value n (emplace_idle k v m) ≡ times_value n m + (if nat_eqb v n then 1 else 0)
unfolding emplace_idle
times_value-emplace_idle k v n [] h = ground arith
times_value-emplace_idle k v n ((j, w) ∷ m) h = ground (arith, times_value-emplace_idle k v n m)

-- The counter counts, no identifier is used twice, and those to come are new.
pub record IsSound {Task : Type 0} (i : ConnItem Task) : Type 0 where
  pub kept : i.keep_alive ≡ true
  pub counted : i.conn_cnt ≡ length i.idle_connections + length i.active_connections
  pub bounded : (i.max_connections ≡ 0) ⊎ (i.conn_cnt ≤ i.max_connections)
  pub once : (k : ℕ) → times_value k i.idle_connections + times_key k i.active_connections ≤ 1
  pub fresh :
      (k : ℕ)
      → i.new_id < k
      → times_value k i.idle_connections + times_key k i.active_connections ≡ 0

-- A connection is idle, or one more is allowed.
abbrev pub HasRoom : {Task : Type 0} → ConnItem Task → Type 0
HasRoom i =
    (0 < length i.idle_connections) ⊎ (i.max_connections ≡ 0) ⊎ (i.conn_cnt < i.max_connections)

-- One connection fewer is idle, or one more is counted.
abbrev pub TookOne : {Task : Type 0} → ConnItem Task → ConnItem Task → Type 0
TookOne i i' =
    ((length i.idle_connections ≡ suc (length i'.idle_connections)) × (i'.conn_cnt ≡ i.conn_cnt))
    ⊎ ((length i.idle_connections ≡ 0)
        × (length i'.idle_connections ≡ 0)
        × (i'.conn_cnt ≡ suc i.conn_cnt))

module _ {Task : Type 0} where
  abbrev pub Created : String → Task → ConnItem Task → Type 0
  Created to bt i =
      (sender : Sender Task) × (i' : ConnItem Task) × (create_upstream_sender to bt i
        ≡ ran (sender, i'))
      × (sender.task ≡ bt)
      × IsSound i'
      × TookOne i i'
      × (i'.task_queue ≡ i.task_queue)
      × (i'.max_connections ≡ i.max_connections)

  abbrev pub item :
      String → ℕ → Bool → ℕ → ℕ → List Task → List (ℕ × ℕ) → List (ℕ × Option ℕ) → ConnItem Task
  item uri max keep new_id cnt queue idle active = record {
    uri = uri;
    max_connections = max;
    keep_alive = keep;
    new_id = new_id;
    conn_cnt = cnt;
    task_queue = queue;
    idle_connections = idle;
    active_connections = active;
  }

  -- A new connection is opened.
  create_new :
      (to : String) (bt : Task) (uri : String) (max new_id cnt : ℕ) (queue : List Task)
      (active : List (ℕ × Option ℕ))
      → IsSound (item uri max true new_id cnt queue [] active)
      → HasRoom (item uri max true new_id cnt queue [] active)
      → Created to bt (item uri max true new_id cnt queue [] active)
  unfolding create_upstream_sender
  create_new to bt uri max new_id cnt queue active s room =
      let unknown : Option ℕ = none in
      let unused : times_key (new_id + 1) active ≡ 0 =
        omega (arith, s.fresh (new_id + 1) (omega arith)) in
      let longer = length-emplace (new_id + 1) unknown active unused in
      let not_held : not (has_key (new_id + 1) active) ≡ true =
        ap not (unheld (new_id + 1) active unused) in
      let allowed : (nat_eqb max 0 || leb cnt max) ≡ true = ground (arith, s.bounded) in
      let size : nat_eqb (cnt + 1) (0 + length (emplace (new_id + 1) unknown active)) ≡ true =
        ground (arith, s.counted, longer) in
      let counts = λ (k : ℕ). times_key-emplace (new_id + 1) k unknown active unused in
      let after =
        item uri max true (new_id + 1) (cnt + 1) queue [] (emplace (new_id + 1) none active) in
      let sound : IsSound after = record {
        kept = refl;
        counted = omega (arith, s.counted, longer);
        bounded = ground (arith, room, s.bounded);
        once = λ k. ground (arith, counts k, s.once k, s.fresh k);
        fresh = λ k h. ground (arith, counts k, s.fresh k);
      } in
      (
        record { task = bt; connection_id = new_id + 1; client = none; to = to },
        after,
        rw (create_upstream_sender, allowed, not_held, size) refl,
        refl,
        sound,
        inr (refl, refl, omega arith),
        refl,
        refl,
      )

  -- The first idle connection is taken.
  create_from_idle :
      (to : String) (bt : Task) (uri : String) (max new_id cnt client id : ℕ) (queue : List Task)
      (idle : List (ℕ × ℕ)) (active : List (ℕ × Option ℕ))
      → IsSound (item uri max true new_id cnt queue ((client, id) ∷ idle) active)
      → Created to bt (item uri max true new_id cnt queue ((client, id) ∷ idle) active)
  unfolding create_upstream_sender
  create_from_idle to bt uri max new_id cnt client id queue idle active s =
      let unused : times_key id active ≡ 0 = ground (arith, s.once id) in
      let longer = length-emplace id (some client) active unused in
      let not_held : not (has_key id active) ≡ true = ap not (unheld id active unused) in
      let allowed : (nat_eqb max 0 || leb cnt max) ≡ true = ground (arith, s.bounded) in
      let size : nat_eqb cnt (length idle + length (emplace id (some client) active)) ≡ true =
        ground (arith, s.counted, longer) in
      let counts = λ (k : ℕ). times_key-emplace id k (some client) active unused in
      let after = item uri max true new_id cnt queue idle (emplace id (some client) active) in
      let sound : IsSound after = record {
        kept = refl;
        counted = omega (arith, s.counted, longer);
        bounded = s.bounded;
        once = λ k. ground (arith, counts k, s.once k);
        fresh = λ k h. ground (arith, counts k, s.fresh k h);
      } in
      (
        record { task = bt; connection_id = id; client = some client; to = to },
        after,
        rw (create_upstream_sender, allowed, not_held, size) refl,
        refl,
        sound,
        inl (refl, refl),
        refl,
        refl,
      )

  create_on :
      (to : String) (bt : Task) (uri : String) (max : ℕ) (keep : Bool) (new_id cnt : ℕ)
      (queue : List Task) (idle : List (ℕ × ℕ)) (active : List (ℕ × Option ℕ))
      → IsSound (item uri max keep new_id cnt queue idle active)
      → HasRoom (item uri max keep new_id cnt queue idle active)
      → Created to bt (item uri max keep new_id cnt queue idle active)
  create_on to bt uri max false new_id cnt queue idle active s room =
      absurd (true≢false (sym s.kept))
  create_on to bt uri max true new_id cnt queue [] active s room =
      create_new to bt uri max new_id cnt queue active s room
  create_on to bt uri max true new_id cnt queue ((client, id) ∷ idle) active s room =
      create_from_idle to bt uri max new_id cnt client id queue idle active s

  -- Where there is room, a sender is created for the task, no assertion fails, and all is sound.
  pub create_upstream_sender-IsSound :
      (to : String) (bt : Task) (i : ConnItem Task) → IsSound i → HasRoom i → Created to bt i
  create_upstream_sender-IsSound to bt i s room =
      create_on to bt i.uri i.max_connections i.keep_alive i.new_id i.conn_cnt i.task_queue
        i.idle_connections i.active_connections s room
