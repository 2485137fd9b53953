-- ===== src/Tasks/Machine/Search.antt =====
-- What the row that `process` takes has to do with the state and the status.
use graft_ng.Shared.{
  ℕ, ◌≡◌, refl, inl, inr, Bool, true, false, none, some, List, [], ◌∷◌, arith, if◌then◌else◌,
  nat_eqb, nat_eqb_iff, ◌&&◌, Bool-cases, All, ap, sym, ◌∙◌, subst,
}
use graft_ng.Tasks.Status.{Status, State, state_code, same_state}
use graft_ng.Tasks.Machine.{Handler3, Row, find_row, admits, holds}

abbrev decode : ℕ → State
decode n =
    if nat_eqb n 0
    then State.execute
    else if nat_eqb n 1
    then State.pre_action
    else if nat_eqb n 2
    then State.chk_pre_action
    else if nat_eqb n 3
    then State.worker_action
    else if nat_eqb n 4
    then State.chk_worker_action
    else if nat_eqb n 5
    then State.worker_action_done
    else if nat_eqb n 6
    then State.post_action
    else if nat_eqb n 7
    then State.chk_post_action
    else if nat_eqb n 8
    then State.again
    else State.exit

decode-state_code : (s : State) → decode (state_code s) ≡ s
decode-state_code State.execute = refl
decode-state_code _ = refl

pub same_state_eq : (s t : State) → same_state s t ≡ true → s ≡ t
same_state_eq s t h =
    sym (decode-state_code s)
    ∙ (ap decode ((nat_eqb_iff (state_code s) (state_code t)).0 h) ∙ decode-state_code t)

find_row_first :
    (x : Row) (rs : List Row) (s : State) (st : Status) (h : Handler3)
    → (same_state s x.start && (admits x.statuses st && holds x.guard h)) ≡ true
    → find_row (x ∷ rs) s st h ≡ some x
unfolding find_row
find_row_first x rs s st h e = rw (find_row, e) refl

find_row_rest :
    (x : Row) (rs : List Row) (s : State) (st : Status) (h : Handler3)
    → (same_state s x.start && (admits x.statuses st && holds x.guard h)) ≡ false
    → find_row (x ∷ rs) s st h ≡ find_row rs s st h
unfolding find_row
find_row_rest x rs s st h e = rw (find_row, e) refl

both : (a b c : Bool) → (a && (b && c)) ≡ true → (a ≡ true) × (b ≡ true)
both true true c h = (refl, refl)
both true false c h = ground arith
both false b c h = ground arith

some_eq : (x r : Row) → some x ≡ some r → x ≡ r
some_eq x r e = ground arith

find_row_none : (s : State) (st : Status) (h : Handler3) → find_row [] s st h ≡ none
unfolding find_row
find_row_none s st h = refl

none_some : (r : Row) → none ≡ some r → ⊥
none_some r e = ground arith

-- The row that is taken is one of the table, for the state and the status.
pub find_row-All :
    (P : Row → Type 0) (rs : List Row) (s : State) (st : Status) (h : Handler3) (r : Row)
    → All P rs
    → find_row rs s st h ≡ some r
    → P r × ((same_state s r.start ≡ true) × (admits r.statuses st ≡ true))
find_row-All P [] s st h r a e = absurd (none_some r (sym (find_row_none s st h) ∙ e))
find_row-All P (x ∷ rs) s st h r a e =
    elim (Bool-cases (same_state s x.start && (admits x.statuses st && holds x.guard h))) [
      | inl fits ↦
          subst (λ y. P y × ((same_state s y.start ≡ true) × (admits y.statuses st ≡ true)))
            (some_eq x r (sym (find_row_first x rs s st h fits) ∙ e))
            (a.0, both (same_state s x.start) (admits x.statuses st) (holds x.guard h) fits)
      | inr other ↦ find_row-All P rs s st h r a.1 (sym (find_row_rest x rs s st h other) ∙ e)
    ]
