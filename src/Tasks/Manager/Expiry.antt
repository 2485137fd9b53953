-- ===== src/Tasks/Manager/Expiry.antt =====
-- When postponed tasks expire. The queue gives the greatest time first, so a deadline that is still
-- to come hides those that have passed.
use graft_ng.Shared.{ℕ, ◌≤◌, ◌≡◌, refl, List, [], ◌∷◌, arith, inl, inr, ◌⊎◌, All}
use graft_ng.Tasks.Manager.{Manager}
use graft_ng.Tasks.Manager.Events.{expire_from}

-- The times fall along the list.
abbrev pub IsFalling : List (ℕ × ℕ) → Type 0
IsFalling [] = Unit {0}
IsFalling (e ∷ q) = All (λ d. d.0 ≤ e.0) q × IsFalling q

-- A deadline that has not passed.
abbrev pub HasPending : ℕ → List (ℕ × ℕ) → Type 0
HasPending now [] = ⊥
HasPending now (e ∷ q) = (now ≤ e.0) ⊎ HasPending now q

pending_first :
    (now : ℕ) (e : ℕ × ℕ) (q : List (ℕ × ℕ)) → All (λ d. d.0 ≤ e.0) q → HasPending now q → now ≤ e.0
pending_first now e [] h p = absurd p
pending_first now e (d ∷ q) h (inl p) = omega (arith, h.0)
pending_first now e (d ∷ q) h (inr p) = pending_first now e q h.1 p

kept_queue :
    (now : ℕ) (q : List (ℕ × ℕ)) (m : Manager)
    → q ≡ m.expire_task_queue
    → record m { expire_task_queue = q } ≡ m
kept_queue now q m e = ground arith

expire_from_first :
    (now : ℕ) (q : List (ℕ × ℕ)) (m : Manager)
    → q ≡ m.expire_task_queue
    → IsFalling q
    → HasPending now q
    → expire_from now q m ≡ m
unfolding expire_from
expire_from_first now [] m e f p = absurd p
expire_from_first now ((t, u) ∷ q) m e f p =
    let first : now ≤ t = elim p [ inl h ↦ h | inr h ↦ pending_first now (t, u) q f.0 h ] in
    ground (arith, kept_queue now ((t, u) ∷ q) m e)

-- While one deadline in the queue has not passed, the loop that expires postponed tasks expires
-- none and changes nothing, however many of the other deadlines have passed.
pub expire_from_pending :
    (now : ℕ) (m : Manager)
    → IsFalling m.expire_task_queue
    → HasPending now m.expire_task_queue
    → expire_from now m.expire_task_queue m ≡ m
expire_from_pending now m f p = expire_from_first now m.expire_task_queue m refl f p
