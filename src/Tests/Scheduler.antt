-- ===== src/Tests/Scheduler.antt =====
-- A scheduler with one group, and a routine on its channel, at concrete calls.
use cmw.Prelude.{
  ℕ, ◌≡◌, refl, ◌⊎◌, Bool, true, false, List, [], ◌∷◌, ◌++◌, Option, none, some, replicate,
  get_elem?, In, ◌≢◌,
}
use cmw.Prelude.Lists.{total}
use cmw.Prelude.Assoc.{Text, text_eq, nat_eq, lookup, insert, erase}
use cmw.Croutine.{
  Croutine, RoutineState, ready, data_wait, create, acquire, release, update_state, set_update_flag,
  stop,
}
use cmw.Croutine.Wakeup.{
  Event, processor_acts, writer_acts, creator_registers, away, run, step, processor_step,
  routine_step, writer_step, acquired, after_fetch, Channel,
}
use cmw.Croutine.Wakeup.Kept.{opened, ran, run_wakes}
use cmw.Data.CacheBuffer.{init, store, is_full, is_empty, at}
use cmw.Data.ChannelBuffer.{try_fetch, fetch}
use cmw.Data.ChannelBuffer.Fetch.{is_miss}
use cmw.Scheduler.ClassicContext.{
  Shared, ClassicContext, next_routine, scan_from, scan_queue, try_routine, queues_of, init_group,
  notify, put_queue, max_prio, returned, Removal, remove_croutine, remove_from, remove_found,
  leave_queue, take_out,
}
use cmw.Scheduler.ClassicContext.Pick.{next_routine_lem, first_runnable, in_order, Effect}
use cmw.Scheduler.SchedulerClassic.{
  SchedulerClassic, SchedGroup, ClassicTask, create_task, dispatch_task, dispatch_found, dispatched,
  configured, clamped, enqueue, create_processor, create_contexts, remove_task_id,
  remove_registered, finish_removal,
}
use cmw.Scheduler.SchedulerClassic.Queues.{queue_at}
use cmw.Scheduler.SchedulerClassic.Registered.{Registered}
use cmw.Scheduler.SchedulerClassic.Reach.{
  Reaches, at_start, after, creates, started, reach-Registered,
}
use cmw.Scheduler.SchedulerClassic.Reach
use cmw.Scheduler.SchedulerClassic.Tasks.{created_runs, removed_gone}

abbrev routine : (id : ℕ) → RoutineState → Bool → Croutine
routine id state locked = record {
  name = id ∷ [];
  wake_time = 0;
  state = state;
  locked = locked;
  updated = true;
  force_stop = false;
  priority = 19;
  id = id;
  group_name = 7 ∷ [];
}

-- Three routines of one group at the highest priority: one held, one that waits, one that is ready
abbrev busy : Shared
busy = record {
  routines = routine 1 ready true ∷ routine 2 data_wait false ∷ routine 3 ready false ∷ [];
  cr_group = (7 ∷ [], replicate 19 [] ++ (0 ∷ 1 ∷ 2 ∷ []) ∷ []) ∷ [];
  notify_grp = [];
}

abbrev context : ClassicContext
context = record { stopped = false; current_grp = 7 ∷ [] }

next_routine_runs : (next_routine 4 context busy).1 ≡ some 2
unfolding next_routine scan_from scan_queue try_routine queues_of lookup acquire release
    update_state
next_routine_runs = refl

next_routine_lem_example :
    ((next_routine 4 context busy).1
      ≡ first_runnable 4 busy.routines (in_order max_prio (queues_of (7 ∷ []) busy)))
    × ((q : ℕ)
        → Effect busy.routines
            (next_routine 4 context busy).0.routines
            (next_routine 4 context busy).1
            q)
next_routine_lem_example = next_routine_lem 4 context busy refl

abbrev groups : List SchedGroup
groups = record { name = 7 ∷ []; processor_num = 2 } ∷ []

abbrev confs : List (Text × ClassicTask)
confs = (3 ∷ [], record { prio = 30; group_name = 7 ∷ [] }) ∷ []

abbrev created_or : SchedulerClassic → Option (SchedulerClassic × Bool) → SchedulerClassic
created_or s none = s
created_or s (some (s', b)) = s'

abbrev removed_or : SchedulerClassic → Option (SchedulerClassic × Removal) → SchedulerClassic
removed_or s none = s
removed_or s (some (s', b)) = s'

abbrev one : SchedulerClassic
one = created_or (started groups confs) (create_task 0 5 (3 ∷ []) (started groups confs))

one-Reaches : Reaches (started groups confs) one
unfolding Reach.step create_task dispatch_task dispatch_found dispatched configured clamped enqueue
    notify put_queue queues_of lookup insert create create_processor create_contexts init_group
one-Reaches = after (creates 0 5 (3 ∷ [])) true at_start refl

reach-Registered_example : Registered one.shared one.id_cr
reach-Registered_example = reach-Registered groups confs one one-Reaches

abbrev two : SchedulerClassic
two = created_or one (create_task 0 6 (4 ∷ []) one)

two-created : create_task 0 6 (4 ∷ []) one ≡ some (two, true)
unfolding create_task dispatch_task dispatch_found dispatched configured clamped enqueue notify
    put_queue queues_of lookup insert create create_processor create_contexts init_group
two-created = refl

created_runs_example :
    (p : ℕ) × (cr : Croutine) × (lookup 6 two.id_cr ≡ some p)
    × (get_elem? two.shared.routines p ≡ some cr)
    × ((later : ℕ) (c : ClassicContext)
        → c.stopped ≡ false
        → c.current_grp ≡ cr.group_name
        → (q : ℕ) × ((next_routine later c two.shared).1 ≡ some q))
created_runs_example = created_runs groups confs one two 0 6 (4 ∷ []) one-Reaches two-created

abbrev none_left : SchedulerClassic
none_left = removed_or one (remove_task_id 5 one)

one-removed : remove_task_id 5 one ≡ some (none_left, returned true)
unfolding remove_task_id remove_registered finish_removal remove_croutine remove_from remove_found
    leave_queue take_out acquire release stop erase create_task dispatch_task dispatch_found
    dispatched configured clamped enqueue notify put_queue queues_of lookup insert create
    create_processor create_contexts init_group
one-removed = refl

removed_gone_example :
    (lookup 5 none_left.id_cr ≡ none)
    × ((group : Text) (prio p : ℕ) (cr : Croutine)
        → In p (queue_at group prio none_left.shared)
        → get_elem? none_left.shared.routines p ≡ some cr
        → cr.id ≢ 5)
removed_gone_example = removed_gone groups confs one none_left 5 true one-Reaches one-removed

-- The callback is registered while the routine finds its channel empty, and a message comes before the
-- routine is parked.
abbrev events : List (Event ℕ)
events =
    processor_acts
    ∷ processor_acts
    ∷ processor_acts
    ∷ writer_acts 0 8
    ∷ writer_acts 0 8
    ∷ processor_acts
    ∷ writer_acts 0 8
    ∷ processor_acts
    ∷ []

abbrev channel : Channel ℕ Unit
channel = ran (init 3 0) 0 0 5 (3 ∷ []) 1 2 events

run_wakes_example :
    (is_miss (try_fetch channel.buffer channel.next_msg_index).0 ≡ true)
    ⊎ ((update_state 9 channel.cr).1 ≡ ready)
unfolding run step processor_step acquired acquire release routine_step after_fetch writer_step
    set_update_flag create init store is_full try_fetch fetch is_empty at total
run_wakes_example = run_wakes {S = Unit} (init 3 0) 0 0 5 (3 ∷ []) 1 2 events 9 refl refl

-- A message that comes when the routine is parked and the callback is not registered yet: the routine
-- stays asleep, with a message to read.
abbrev too_early : List (Event ℕ)
too_early = replicate 7 processor_acts ++ writer_acts 0 8 ∷ writer_acts 0 8 ∷ creator_registers ∷ []

abbrev asleep : Channel ℕ Unit
asleep = run (opened (init 3 0) 0 0 5 (3 ∷ []) 1) too_early

early-lost :
    ((is_miss (try_fetch asleep.buffer asleep.next_msg_index).0 ≡ false)
      × (asleep.processor ≡ away))
    × ((update_state 9 asleep.cr).1 ≡ data_wait)
unfolding run step processor_step acquired acquire release routine_step after_fetch writer_step
    set_update_flag create init store is_full try_fetch fetch is_empty at total update_state
early-lost = ((refl, refl), refl)
