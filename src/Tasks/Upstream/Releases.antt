-- ===== src/Tasks/Upstream/Releases.antt =====
-- Connections that come back or are closed, at an item that keeps them alive.
use mathlib.Core.Bool.{true≢false}
use graft_ng.Shared.{
  ℕ, suc, ◌-◌, ◌<◌, ◌≡◌, ◌⊎◌, inl, inr, refl, sym, String, Bool, true, false, Option, none, some,
  List, ltb, lookup, nat_eq, length, arith,
}
use graft_ng.Tasks.Upstream.{
  ran, ConnItem, emplace_idle, fits, release_active, drop_connection, on_close_idle,
}
use graft_ng.Tasks.Upstream.Connections.{
  IsSound, HasRoom, item, take_key-lookup, idle_taken, length-emplace_idle,
  times_value-emplace_idle,
}

-- The network library hands back no connection that is idle.
abbrev pub IsNotIdle : Option ℕ → List (ℕ × ℕ) → Type 0
IsNotIdle none idle = Unit {0}
IsNotIdle (some client) idle = lookup client idle ≡ none

fits_none : (held : Option ℕ) → fits held none ≡ true
fits_none none = refl
fits_none (some c) = refl

module _ {Task : Type 0} where
  -- One connection fewer is counted, or one more is idle.
  abbrev pub LostOne : ConnItem Task → ConnItem Task → Type 0
  LostOne i i' =
      ((suc i'.conn_cnt ≡ i.conn_cnt) × (length i'.idle_connections ≡ length i.idle_connections))
      ⊎ ((i'.conn_cnt ≡ i.conn_cnt)
          × (length i'.idle_connections ≡ suc (length i.idle_connections)))

  -- Sound, with one connection fewer counted or one more idle.
  abbrev pub Released : ℕ → Option ℕ → ConnItem Task → Type 0
  Released id client i =
      (i' : ConnItem Task) × (release_active id client i ≡ ran i')
      × IsSound i'
      × HasRoom i'
      × (i'.task_queue ≡ i.task_queue)
      × (i'.max_connections ≡ i.max_connections)
      × LostOne i i'

  -- The connection is gone.
  release_closed :
      (id : ℕ) (held : Option ℕ) (uri : String) (max new_id cnt : ℕ) (queue : List Task)
      (idle : List (ℕ × ℕ)) (active : List (ℕ × Option ℕ))
      → IsSound (item uri max true new_id cnt queue idle active)
      → lookup id active ≡ some held
      → Released id none (item uri max true new_id cnt queue idle active)
  unfolding release_active drop_connection
  release_closed id held uri max new_id cnt queue idle active s there =
      let (r, took, size, counts) = take_key-lookup id held active there in
      let positive : ltb 0 cnt ≡ true = ground (arith, s.counted, size) in
      let after = item uri max true new_id (cnt - 1) queue idle r in
      let sound : IsSound after = record {
        kept = refl;
        counted = omega (arith, s.counted, size);
        bounded = ground (arith, s.bounded);
        once = λ k. omega (arith, counts k, s.once k);
        fresh = λ k h. omega (arith, counts k, s.fresh k h);
      } in
      (
        after,
        rw (release_active, took, fits_none held, positive) refl,
        sound,
        ground (arith, s.bounded, s.counted, size),
        refl,
        refl,
        inl (omega (arith, s.counted, size), refl),
      )

  -- The connection is idle from now on.
  release_kept :
      (id client : ℕ) (held : Option ℕ) (uri : String) (max new_id cnt : ℕ) (queue : List Task)
      (idle : List (ℕ × ℕ)) (active : List (ℕ × Option ℕ))
      → IsSound (item uri max true new_id cnt queue idle active)
      → lookup id active ≡ some held
      → fits held (some client) ≡ true
      → lookup client idle ≡ none
      → Released id (some client) (item uri max true new_id cnt queue idle active)
  unfolding release_active
  release_kept id client held uri max new_id cnt queue idle active s there same new =
      let (r, took, size, counts) = take_key-lookup id held active there in
      let longer = length-emplace_idle client id idle new in
      let after = item uri max true new_id cnt queue (emplace_idle client id idle) r in
      let idle_counts = λ (k : ℕ). times_value-emplace_idle client id k idle new in
      let sound : IsSound after = record {
        kept = refl;
        counted = omega (arith, s.counted, size, longer);
        bounded = s.bounded;
        once = λ k. omega (arith, counts k, idle_counts k, s.once k);
        fresh = λ k h. omega (arith, counts k, idle_counts k, s.fresh k h);
      } in
      (
        after,
        rw (release_active, took, same) refl,
        sound,
        inl (omega (arith, longer)),
        refl,
        refl,
        inr (refl, longer),
      )

  -- Whether a connection comes back, as the network library may report it.
  abbrev pub IsActive : ℕ → Option ℕ → ConnItem Task → Type 0
  IsActive id client i =
      (held : Option ℕ) × (lookup id i.active_connections ≡ some held)
      × (fits held client ≡ true)
      × IsNotIdle client i.idle_connections

  release_on :
      (id : ℕ) (client : Option ℕ) (uri : String) (max : ℕ) (keep : Bool) (new_id cnt : ℕ)
      (queue : List Task) (idle : List (ℕ × ℕ)) (active : List (ℕ × Option ℕ))
      → IsSound (item uri max keep new_id cnt queue idle active)
      → IsActive id client (item uri max keep new_id cnt queue idle active)
      → Released id client (item uri max keep new_id cnt queue idle active)
  release_on id client uri max false new_id cnt queue idle active s there =
      absurd (true≢false (sym s.kept))
  release_on id none uri max true new_id cnt queue idle active s (held, there, same, new) =
      release_closed id held uri max new_id cnt queue idle active s there
  release_on id (some client) uri max true new_id cnt queue idle active s (held, there, same, new) =
      release_kept id client held uri max new_id cnt queue idle active s there same new

  -- No assertion fails, and there is room for one more connection.
  pub release_active-IsSound :
      (id : ℕ) (client : Option ℕ) (i : ConnItem Task)
      → IsSound i
      → IsActive id client i
      → Released id client i
  release_active-IsSound id client i =
      release_on id client i.uri i.max_connections i.keep_alive i.new_id i.conn_cnt i.task_queue
        i.idle_connections i.active_connections

  -- An idle connection is closed.
  abbrev pub ClosedIdle : ℕ → ConnItem Task → Type 0
  ClosedIdle client i =
      (i' : ConnItem Task) × (on_close_idle client i ≡ ran i')
      × IsSound i'
      × (i'.task_queue ≡ i.task_queue)
      × (0 < length i.idle_connections)

  pub close_on :
      (client id : ℕ) (uri : String) (max : ℕ) (keep : Bool) (new_id cnt : ℕ) (queue : List Task)
      (idle : List (ℕ × ℕ)) (active : List (ℕ × Option ℕ))
      → IsSound (item uri max keep new_id cnt queue idle active)
      → lookup client idle ≡ some id
      → ClosedIdle client (item uri max keep new_id cnt queue idle active)
  unfolding on_close_idle
  close_on client id uri max false new_id cnt queue idle active s there =
      absurd (true≢false (sym s.kept))
  close_on client id uri max true new_id cnt queue idle active s there =
      let (r, took, size, counts) = idle_taken client id idle there in
      let positive : ltb 0 cnt ≡ true = ground (arith, s.counted, size) in
      let after = item uri max true new_id (cnt - 1) queue r active in
      let sound : IsSound after = record {
        kept = refl;
        counted = omega (arith, s.counted, size);
        bounded = ground (arith, s.bounded);
        once = λ k. omega (arith, counts k, s.once k);
        fresh = λ k h. omega (arith, counts k, s.fresh k h);
      } in
      (after, rw (on_close_idle, took, positive) refl, sound, refl, omega (arith, size))
