-- ===== src/Scheduler/SchedulerClassic.antt =====
-- scheduler/policy/scheduler_classic.cpp and scheduler/scheduler.cpp: the tasks of a scheduler. The
-- mutexes and locks make each call one step; the threads of the processors and the pinning of threads
-- are not modelled.
pub mod Queues
pub mod Registered
pub mod Leaving
pub mod Calls
pub mod Removing
pub mod Turns
pub mod Reach
pub mod Tasks
use cmw.Prelude.{
  ℕ, zero, suc, ◌-◌, ◌==◌, Bool, true, false, List, [], ◌∷◌, ◌++◌, Option, none, some, ltb,
  if◌then◌else◌, get_elem?, get_or, set, length, ◌>>=◌, map,
}
use cmw.Prelude.Assoc.{Text, nat_eq, text_eq, lookup, insert, erase}
use cmw.Croutine.{
  Croutine, RoutineState, create, waits_for_data, set_update_flag, stop, release, resume,
}
use cmw.Scheduler.ClassicContext.{
  Shared, ClassicContext, max_prio, queues_of, put_queue, init_group, notify, shutdown, Removal,
  returned, waiting, remove_croutine,
}

-- An entry of the configuration, `ClassicTask`
pub record ClassicTask : Type 0 where
  pub prio : ℕ
  pub group_name : Text

-- A group of the configuration, `SchedGroup`, without what the pinning of threads reads
pub record SchedGroup : Type 0 where
  pub name : Text
  pub processor_num : ℕ

pub record SchedulerClassic : Type 0 where
  pub stopped : Bool
  pub shared : Shared
  pub id_cr : List (ℕ × ℕ)
  pub cr_confs : List (Text × ClassicTask)
  pub groups : List SchedGroup
  pub pctxs : List ClassicContext
  pub task_pool_size : ℕ

-- The loops of `CreateProcessor`, for one group and for all
unfoldable pub create_contexts : ℕ → Text → SchedulerClassic → SchedulerClassic
unfolding init_group
create_contexts zero group s = s
create_contexts (suc n) group s =
    let (context, shared) = init_group group s.shared in
    create_contexts n group (record s { shared = shared; pctxs = s.pctxs ++ context ∷ [] })

unfoldable pub create_processor : List SchedGroup → SchedulerClassic → SchedulerClassic
unfolding create_contexts
create_processor [] s = s
create_processor (group ∷ groups) s =
    let size = if s.task_pool_size == 0 then group.processor_num else s.task_pool_size in
    create_processor groups
      (create_contexts group.processor_num group.name (record s { task_pool_size = size }))

-- The group and the priority of a task: the configured ones, or those of the first group.
unfoldable pub configured : SchedulerClassic → Croutine → Option Croutine
configured s cr = elim (lookup cr.name s.cr_confs) [
  | some task ↦ some (record cr { priority = task.prio; group_name = task.group_name })
  | none ↦ elim s.groups [ [] ↦ none | group ∷ gs ↦ some (record cr { group_name = group.name }) ]
]

unfoldable pub clamped : Croutine → Croutine
clamped cr = if ltb cr.priority max_prio then cr else record cr { priority = max_prio - 1 }

unfoldable pub enqueue : ℕ → Croutine → Shared → Shared
unfolding put_queue queues_of
enqueue p cr s =
    put_queue cr.group_name cr.priority
      (get_or (queues_of cr.group_name s) cr.priority [] ++ p ∷ [])
      (record s { routines = set s.routines p cr })

unfoldable pub dispatched : ℕ → Croutine → Croutine → SchedulerClassic → SchedulerClassic × Bool
unfolding clamped enqueue notify
dispatched p cr cr' s = (
  record s {
    id_cr = insert cr.id p s.id_cr;
    shared = notify (clamped cr').group_name (enqueue p (clamped cr') s.shared);
  },
  true,
)

-- `DispatchTask` of the routine `cr` at `p`; `none` is a read past the end of no groups.
unfoldable pub dispatch_found : ℕ → SchedulerClassic → Croutine → Option (SchedulerClassic × Bool)
unfolding configured dispatched
dispatch_found p s cr = elim (lookup cr.id s.id_cr) [
  | some other ↦ some (s, false)
  | none ↦ configured s cr >>= λ cr'. some (dispatched p cr cr' s)
]

unfoldable pub dispatch_task : ℕ → SchedulerClassic → Option (SchedulerClassic × Bool)
unfolding dispatch_found
dispatch_task p s = get_elem? s.shared.routines p >>= dispatch_found p s

-- `CreateTask`, with the id that `RegisterTaskName` gives. The new routine is at the end of the store.
unfoldable pub create_task :
    (now task_id : ℕ) → Text → SchedulerClassic → Option (SchedulerClassic × Bool)
unfolding dispatch_task create
create_task now task_id name s =
    let cr = create now task_id name in
    let s' = record s { shared = record s.shared { routines = s.shared.routines ++ cr ∷ [] } } in
    if s.stopped then some (s, false) else dispatch_task (length s.shared.routines) s'

unfoldable pub notify_found : ℕ → Croutine → SchedulerClassic → SchedulerClassic
unfolding notify set_update_flag
notify_found p cr s =
    let cr' = if waits_for_data cr.state then set_update_flag cr else cr in
    record s {
      shared = notify cr.group_name (record s.shared { routines = set s.shared.routines p cr' });
    }

unfoldable pub notify_registered : ℕ → SchedulerClassic → SchedulerClassic × Bool
unfolding notify_found
notify_registered crid s = elim (lookup crid s.id_cr) [
  | none ↦ (s, false)
  | some p ↦ elim (get_elem? s.shared.routines p) [
    | none ↦ (s, false)
    | some cr ↦ (notify_found p cr s, true)
  ]
]

-- `NotifyProcessor`, and `NotifyTask`, which makes the same test of `stop_`
unfoldable pub notify_processor : ℕ → SchedulerClassic → SchedulerClassic × Bool
unfolding notify_registered
notify_processor crid s =
    let found = notify_registered crid s in if s.stopped then (s, true) else found

unfoldable pub finish_removal : SchedulerClassic → Shared × Removal → SchedulerClassic × Removal
finish_removal s (shared, r) = (record s { shared = shared }, r)

-- `RemoveCRoutine` of the routine `cr` at `p`, which is stopped and no longer registered before it
-- leaves its queue.
unfoldable pub remove_registered :
    (crid p : ℕ) → SchedulerClassic → Croutine → Option (SchedulerClassic × Removal)
unfolding stop remove_croutine finish_removal
remove_registered crid p s cr = do
  out ← remove_croutine (stop cr) (record s.shared { routines = set s.shared.routines p (stop cr) })
  some (finish_removal (record s { id_cr = erase crid s.id_cr }) out)

unfoldable pub remove_task_id : ℕ → SchedulerClassic → Option (SchedulerClassic × Removal)
unfolding remove_registered
remove_task_id crid s = elim (lookup crid s.id_cr) [
  | none ↦ some (s, returned false)
  | some p ↦ get_elem? s.shared.routines p >>= remove_registered crid p s
]

-- `RemoveTask`, for the hash of the task's name
unfoldable pub remove_task :
    (hash : Text → ℕ) → Text → SchedulerClassic → Option (SchedulerClassic × Removal)
unfolding remove_task_id
remove_task hash name s =
    if s.stopped then some (s, returned true) else remove_task_id (hash name) s

-- `ProcessorContext::Shutdown` of every context, and `RemoveCRoutine` of every id
unfoldable pub shut_contexts : List ClassicContext → Shared → List ClassicContext × Shared
unfolding shutdown
shut_contexts [] shared = ([], shared)
shut_contexts (c ∷ cs) shared =
    let (c', shared') = shutdown c shared in
    let (cs', last) = shut_contexts cs shared' in (c' ∷ cs', last)

unfoldable pub remove_all : List ℕ → SchedulerClassic → Option (SchedulerClassic × Removal)
unfolding remove_task_id
remove_all [] s = some (s, returned true)
remove_all (id ∷ ids) s = do
  (s', removal) ← remove_task_id id s
  let rest = remove_all ids s'
  elim removal [ waiting ↦ some (s', waiting) | returned done ↦ rest ]

-- `Scheduler::Shutdown`, up to the stop of the processors' threads
unfoldable pub shutdown_all : SchedulerClassic → Option (SchedulerClassic × Removal)
unfolding shut_contexts remove_all
shutdown_all s =
    let (contexts, shared) = shut_contexts s.pctxs s.shared in
    let all =
      remove_all (map (λ e. e.0) s.id_cr)
        (record s { stopped = true; shared = shared; pctxs = contexts }) in
    if s.stopped then some (s, returned true) else all
