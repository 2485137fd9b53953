-- ===== src/Tasks/Manager/Resume.antt =====
-- An answer finds the task that waits for it, whichever of the two comes first.
use graft_ng.Shared.{
  ℕ, ◌+◌, ◌<◌, ◌≡◌, ◌≢◌, none, [], ◌∷◌, ◌++◌, arith, String, nat_eq, lookup, assign, lookup-assign,
  lookup-erase,
}
use graft_ng.Tasks.ExpiringList.{Entry}
use graft_ng.Tasks.ExpiringList
use graft_ng.Tasks.ExpiringList.Lifetime.{
  Without, extract-add_live, find_and_erase-missing, Without-chop,
}
use graft_ng.Tasks.Manager.{Task, Manager, Program, Config, task, put_task}
use graft_ng.Tasks.Manager.Steps.{postpone_task, postpone_found, hand_on, with_id, timeout_ms}

-- The task has been resumed with the input: it is the last that is ready, it is not postponed under
-- the uuid, and no saved answer is left under it.
pub record IsResumed (id uuid : ℕ) (input : String) (before after : Manager) : Type 0 where
  pub ready : after.ready_to_resume ≡ before.ready_to_resume ++ id ∷ []
  pub has_input : (task id after).input ≡ input
  pub not_waiting : lookup uuid after.postponed_tasks ≡ none
  pub not_saved : Without uuid after.future_postpone_uuids

module _ (p : Program) (cf : Config) where
  task-put_task : (id : ℕ) (t : Task) (m : Manager) → task id (put_task id t m) ≡ t
  task-put_task id t m = ground (arith, lookup-assign id id t m.tasks)

  -- The answer comes first, and the task is postponed before the answer's life time is over.
  hand_on-postpone :
      (asker waiter uuid now later : ℕ) (m : Manager)
      → (task waiter m).ctx.uuid ≡ uuid
      → uuid ≢ 0
      → lookup uuid m.postponed_tasks ≡ none
      → Without uuid m.future_postpone_uuids
      → later < now + timeout_ms p cf
      → IsResumed waiter uuid
          (task asker m).input
          m
          (postpone_task p cf waiter later (hand_on p cf asker uuid now none m))
  unfolding postpone_task hand_on with_id postpone_found
  hand_on-postpone asker waiter uuid now later m hu h0 hp hw live =
      let input = (task asker m).input in
      ground (
        arith,
        extract-add_live (timeout_ms p cf) now later uuid input m.future_postpone_uuids hw live,
        Without-chop later uuid (ExpiringList.chop now m.future_postpone_uuids)
            (Without-chop now uuid m.future_postpone_uuids hw),
        task-put_task waiter (record (task waiter m) { input = input }) m,
      )

  -- The task is postponed first, with no answer saved for it.
  postpone-hand_on :
      (asker waiter uuid now later : ℕ) (m : Manager)
      → (task waiter m).ctx.uuid ≡ uuid
      → uuid ≢ 0
      → Without uuid m.future_postpone_uuids
      → let postponed = postpone_task p cf waiter now m in
        IsResumed waiter uuid
          (task asker m).input
          m
          (hand_on p cf asker uuid later (lookup uuid postponed.postponed_tasks) postponed)
  unfolding postpone_task hand_on with_id postpone_found ExpiringList.extract
  postpone-hand_on asker waiter uuid now later m hu h0 hw =
      let input = (task asker m).input in
      ground (
        arith,
        find_and_erase-missing uuid (ExpiringList.chop now m.future_postpone_uuids)
            (Without-chop now uuid m.future_postpone_uuids hw),
        Without-chop now uuid m.future_postpone_uuids hw,
        lookup-assign uuid uuid waiter m.postponed_tasks,
        lookup-erase uuid uuid (assign uuid waiter m.postponed_tasks),
        task-put_task waiter (record (task waiter m) { input = input }) m,
      )

  -- A task that waits under a uuid, for which no answer is saved and which is not postponed yet,
  -- is resumed with the input of the answering task in either order of the two calls, the second
  -- next after the first and within the life time of a saved answer: the answer first and the task
  -- postponed then, or the task postponed first and the answer then. In both cases the task is the
  -- last that is ready, and nothing is left waiting or saved under the uuid.
  pub IsResumed-either_order :
      (asker waiter uuid now later : ℕ) (m : Manager)
      → (task waiter m).ctx.uuid ≡ uuid
      → uuid ≢ 0
      → lookup uuid m.postponed_tasks ≡ none
      → Without uuid m.future_postpone_uuids
      → later < now + timeout_ms p cf
      → let postponed = postpone_task p cf waiter now m in
        IsResumed waiter uuid (task asker m).input m (
          postpone_task p cf waiter later
            (hand_on p cf asker uuid now (lookup uuid m.postponed_tasks) m))
        × IsResumed waiter uuid
            (task asker m).input
            m
            (hand_on p cf asker uuid later (lookup uuid postponed.postponed_tasks) postponed)
  IsResumed-either_order asker waiter uuid now later m hu h0 hp hw live = (
    rw hp (hand_on-postpone asker waiter uuid now later m hu h0 hp hw live),
    postpone-hand_on asker waiter uuid now later m hu h0 hw,
  )
