-- ===== src/Tasks/Machine/Ends.antt =====
-- Why the dispatch loop ends.
use graft_ng.Shared.{
  ℕ, zero, suc, ◌+◌, ◌*◌, ◌≤◌, ◌<◌, ◌≡◌, refl, Bool, true, false, not, ◌&&◌, ◌||◌, Option, none,
  some, arith, if◌then◌else◌, ltb, is_some, Option-cases, Bool-cases, inl, inr, ◌⊎◌, subst, sym, ap,
  ◌∙◌, ◌≢◌,
}
use mathlib.Core.Bool.{true≢false}
use graft_ng.Tasks.Status.{Status, State, same_status, same_state}
use graft_ng.Tasks.Machine.{
  Handler3, Action, Row, table, find_row, run_preaction, run_postaction, dispatch, Step,
}

-- The actions that call a handler, which may ask to be called again.
abbrev pub asks : Action → Bool
asks run_preaction = true
asks run_postaction = true
asks _ = false

-- How far a state is from the end, if no handler asks to be called again from there on.
abbrev distance : State → ℕ
distance State.execute = 7
distance State.pre_action = 6
distance State.chk_pre_action = 5
distance State.worker_action_done = 5
distance State.worker_action = 4
distance State.chk_worker_action = 3
distance State.post_action = 2
distance State.chk_post_action = 1
distance _ = 0

-- The check of a handler that has asked leads back.
abbrev is_check : State → Bool
is_check State.chk_pre_action = true
is_check State.chk_post_action = true
is_check _ = false

abbrev detour : State → Status → ℕ
detour s st = if is_check s && same_status st Status.again then 2 else 0

-- A pre action is not called while its task is to be called again.
abbrev pub may_ask : Status → Action → Bool
may_ask st run_preaction = not (same_status st Status.again)
may_ask st _ = true

leads_on : State → Status → Option Row → Bool
leads_on s st none = true
leads_on s st (some r) =
    ltb (distance r.target) (distance s + detour s st)
    && ((not (is_check r.target) || asks r.action) && may_ask st r.action)

find_row-leads_on :
    (s : State) (st : Status) (h : Handler3) → leads_on s st (find_row table s st h) ≡ true
unfolding find_row table leads_on
find_row-leads_on State.execute Status.none h = refl
find_row-leads_on _ _ h = ground arith

-- What is left of a step: the target is nearer, and only an action that asks leads to a check.
step_left :
    (s : State) (st : Status) (r : Row)
    → leads_on s st (some r) ≡ true
    → (distance r.target < distance s + detour s st)
      × ((is_check r.target ≡ false) ⊎ (asks r.action ≡ true))
      × (may_ask st r.action ≡ true)
unfolding leads_on
step_left s st r h = elim (Bool-cases (is_check r.target)) [
  | inr plain ↦ (ground (arith, h), inl plain, ground (arith, h))
  | inl checks ↦ (ground (arith, h), inr (ground (arith, h, checks)), ground (arith, h))
]

distance_le : (s : State) → distance s ≤ 7
distance_le s = ground arith

and_right : (a b : Bool) → (a && b) ≡ true → b ≡ true
and_right true b h = h
and_right false b h = absurd (true≢false (sym h))

and_absurd : (a b : Bool) → a ≡ false → (a && b) ≢ true
and_absurd a b e h = absurd (true≢false (sym h ∙ ap (λ x. x && b) e))

detour_le : (s : State) (st : Status) → detour s st ≤ 2
detour_le s st = elim (Bool-cases (is_check s && same_status st Status.again)) [
  | inl checks ↦ rw checks (omega arith)
  | inr plain ↦ rw plain (omega arith)
]

module _ {ℓ} {W : Type ℓ} (status : W → Status) (handlers : W → Handler3)
    (perform : Action → W → Step W) (budget : W → ℕ) where
  -- The detour after an action is paid by what the action has taken from the budget.
  detour_paid :
      (s : State) (a : Action) (w : W)
      → budget (perform a w).0 ≤ budget w
      → (asks a ≡ true
          → same_status (status (perform a w).0) Status.again ≡ true
          → budget (perform a w).0 < budget w)
      → (is_check s ≡ false) ⊎ (asks a ≡ true)
      → detour s (status (perform a w).0) + 2 * budget (perform a w).0 ≤ 2 * budget w
  detour_paid s a w less paid how =
      elim (Bool-cases (is_check s && same_status (status (perform a w).0) Status.again)) [
        | inr plain ↦ rw plain (omega (arith, less))
        | inl checks ↦ elim how [
          | inl free ↦ absurd (and_absurd (is_check s) _ free checks)
          | inr asked ↦ rw checks (omega (arith, paid asked (and_right (is_check s) _ checks)))
        ]
      ]

  -- If what holds of the worlds keeps holding, no action adds to the budget, and a handler that asks
  -- to be called again takes from it, then the loop ends.
  ends :
      (Good : W → Type 0)
      → ((a : Action) (w : W) → Good w → Good (perform a w).0)
      → ((a : Action) (w : W) → Good w → budget (perform a w).0 ≤ budget w)
      → ((a : Action) (w : W)
          → Good w
          → may_ask (status w) a ≡ true
          → asks a ≡ true
          → same_status (status (perform a w).0) Status.again ≡ true
          → budget (perform a w).0 < budget w)
      → (fuel : ℕ) (s : State) (w : W) → Good w
      → distance s + detour s (status w) + 2 * budget w < fuel
      → is_some (dispatch status handlers perform fuel s w) ≡ true
  unfolding dispatch
  ends Good kept less paid zero s w g h = absurd (omega (arith, h))
  ends Good kept less paid (suc fuel) s w g h = elim (Bool-cases (same_state s State.exit)) [
    | inl over ↦ rw (dispatch, over) refl
    | inr going ↦ elim (Option-cases (find_row table s (status w) (handlers w))) [
      | inl none_fits ↦ rw (dispatch, going, none_fits) refl
      | inr (r, fits) ↦
          let (nearer, how, may) = step_left s (status w) r (
            subst (λ o. leads_on s (status w) o ≡ true) fits
              (find_row-leads_on s (status w) (handlers w))) in
          elim (Option-cases (perform r.action w).1) [
            | inr (e, threw) ↦ rw (dispatch, going, fits, threw) refl
            | inl went ↦
                rw (dispatch, going, fits, went)
                  (ends Good kept less paid fuel r.target (perform r.action w).0 (kept r.action w g)
                    (omega (
                      arith,
                      nearer,
                      h,
                      detour_paid r.target r.action w (less r.action w g) (paid r.action w g may)
                          how,
                    )))
          ]
    ]
  ]

  pub ends_within :
      (Good : W → Type 0)
      → ((a : Action) (w : W) → Good w → Good (perform a w).0)
      → ((a : Action) (w : W) → Good w → budget (perform a w).0 ≤ budget w)
      → ((a : Action) (w : W)
          → Good w
          → may_ask (status w) a ≡ true
          → asks a ≡ true
          → same_status (status (perform a w).0) Status.again ≡ true
          → budget (perform a w).0 < budget w)
      → (fuel : ℕ) (s : State) (w : W) → Good w
      → 10 + 2 * budget w ≤ fuel
      → is_some (dispatch status handlers perform fuel s w) ≡ true
  ends_within Good kept less paid fuel s w g h =
      ends Good kept less paid fuel s w g (omega (arith, detour_le s (status w), distance_le s, h))
