-- ===== src/Scheduler/SchedulerClassic/Tasks.antt =====
-- What the calls on a task promise: one that is created is run, one that is removed is gone.
use cmw.Prelude.{
  ℕ, zero, suc, ◌≡◌, ◌≢◌, ◌<◌, refl, sym, ap, ◌∙◌, inl, inr, Bool, true, false, List, [], ◌∷◌,
  Option, none, some, arith, get_elem?, get_or, length, In, In-left, In-right, subst, Option-cases,
  Bool-cases, ◌>>=◌, if◌then◌else◌, get_elem?-set_self, get_elem?-some-lt, get_elem?-append_end,
}
use native.Mathlib.Decide.{ℕ_discrete}
use cmw.Prelude.Assoc.{Text, nat_eq, text_eq, lookup, insert, erase, lookup-insert, lookup-erase}
use cmw.Croutine.{Croutine, ready, create, update_state}
use cmw.Scheduler.ClassicContext.{
  Shared, ClassicContext, queues_of, notify, next_routine, max_prio, Removal, returned,
}
use cmw.Scheduler.ClassicContext.Pick.{
  is_runnable, runs_if, runnable_at, first_runnable, in_order, next_routine_lem,
}
use cmw.Scheduler.SchedulerClassic.{
  SchedulerClassic, SchedGroup, ClassicTask, configured, clamped, enqueue, dispatched,
  dispatch_found, dispatch_task, create_task, remove_task_id, remove_registered, finish_removal,
}
use cmw.Scheduler.SchedulerClassic.Queues.{queue_at}
use cmw.Scheduler.SchedulerClassic.Registered.{Registered, at_end, ident_of, some_ident, placed}
use cmw.Scheduler.SchedulerClassic.Leaving.{placed-inj}
use cmw.Scheduler.SchedulerClassic.Calls.{configured_id, clamped_below, append-Registered}
use cmw.Scheduler.SchedulerClassic.Reach.{Reaches, after, removes, step, started, reach-Registered}

-- A free and ready routine in a queue of its group
pub record Waits (s : Shared) (p : ℕ) (cr : Croutine) : Type 0 where
  pub at_p : get_elem? s.routines p ≡ some cr
  pub free : cr.locked ≡ false
  pub is_set : cr.state ≡ ready
  pub below : cr.priority < 20
  pub queued : In p (queue_at cr.group_name cr.priority s)

first_runnable-some :
    (now : ℕ) (rs : List Croutine) (ps : List ℕ) (p : ℕ)
    → In p ps
    → runnable_at now rs p ≡ true
    → (q : ℕ) × (first_runnable now rs ps ≡ some q)
unfolding first_runnable
first_runnable-some now rs [] p h go = absurd h
first_runnable-some now rs (x ∷ xs) p h go = elim (Bool-cases (runnable_at now rs x)) [
  | inl yes_x ↦ (x, rw (yes_x, first_runnable) refl)
  | inr not_x ↦ elim h [
    | inl e ↦
        absurd (let e' : runnable_at now rs x ≡ true = ap (runnable_at now rs) (sym e) ∙ go in cc)
    | inr l ↦
        let (q, found) = first_runnable-some now rs xs p l go in
        (q, rw (not_x, first_runnable) found)
  ]
]

In-in_order :
    (n i p : ℕ) (queues : List (List ℕ))
    → i < n
    → In p (get_or queues i [])
    → In p (in_order n queues)
unfolding in_order
In-in_order zero i p queues lt h = absurd (omega arith)
In-in_order (suc n) i p queues lt h = elim (ℕ_discrete n i) [
  | yes e ↦ In-left p _ _ (subst (λ j. In p (get_or queues j [])) (sym e) h)
  | no ne ↦ In-right p _ _ (In-in_order n i p queues (omega arith) h)
]

ready_runs :
    (now : ℕ) (cr : Croutine) → cr.locked ≡ false → cr.state ≡ ready → is_runnable now cr ≡ true
unfolding update_state
ready_runs now cr free is_set = ground arith

Waits-runs :
    (s : Shared) (p : ℕ) (cr : Croutine)
    → Waits s p cr
    → (now : ℕ) (c : ClassicContext) → c.stopped ≡ false
    → c.current_grp ≡ cr.group_name
    → (q : ℕ) × ((next_routine now c s).1 ≡ some q)
Waits-runs s p cr w now c on mine =
    let queued : In p (queue_at c.current_grp cr.priority s) =
      subst (λ g. In p (queue_at g cr.priority s)) (sym mine) w.queued in
    let (q, found) =
      first_runnable-some now s.routines (in_order max_prio (queues_of c.current_grp s)) p
        (In-in_order 20 cr.priority p (queues_of c.current_grp s) w.below queued)
        (ap (runs_if now) w.at_p ∙ ready_runs now cr w.free w.is_set) in
    (q, (next_routine_lem now c s on).0 ∙ found)

-- What a call that succeeds with a new task leaves: the task waits to be run.
abbrev Ready : ℕ → Option (SchedulerClassic × Bool) → Type 0
Ready id none = Unit
Ready id (some (s, false)) = Unit
Ready id (some (s, true)) =
    (p : ℕ) × (cr : Croutine) × (lookup id s.id_cr ≡ some p) × Waits s.shared p cr

Ready-bind :
    {A : Type 0} (id : ℕ) (m : Option A) (f : A → Option (SchedulerClassic × Bool))
    → ((a : A) → m ≡ some a → Ready id (f a))
    → Ready id (m >>= f)
Ready-bind id none f h = tt
Ready-bind id (some a) f h = h a refl

configured_state :
    (s : SchedulerClassic) (cr cr' : Croutine)
    → configured s cr ≡ some cr'
    → ((clamped cr').locked ≡ cr.locked) × ((clamped cr').state ≡ cr.state)
unfolding configured clamped
configured_state s cr cr' e = ground arith

lookup-insert_self : (id p : ℕ) (ids : List (ℕ × ℕ)) → lookup id (insert id p ids) ≡ some p
lookup-insert_self id p ids = ground (arith, lookup-insert id id p ids)

module _ (p : ℕ) (s : SchedulerClassic) (r : Registered s.shared s.id_cr) (cr : Croutine)
    (here : get_elem? s.shared.routines p ≡ some cr) (free : cr.locked ≡ false)
    (is_set : cr.state ≡ ready) where
  dispatched-Ready :
      (cr' : Croutine)
      → configured s cr ≡ some cr'
      → lookup cr.id s.id_cr ≡ none
      → Ready cr.id (some (dispatched p cr cr' s))
  unfolding dispatched enqueue notify queues_of
  dispatched-Ready cr' conf new =
      let (lock, state) = configured_state s cr cr' conf in
      (
        p,
        clamped cr',
        lookup-insert_self cr.id p s.id_cr,
        record {
          at_p =
              get_elem?-set_self s.shared.routines p (clamped cr')
                (get_elem?-some-lt s.shared.routines p cr here);
          free = lock ∙ free;
          is_set = state ∙ is_set;
          below = clamped_below cr';
          queued =
              at_end s.shared s.id_cr p cr (clamped cr') r here new (configured_id s cr cr' conf)
                (clamped_below cr');
        },
      )

  found-Ready : Ready cr.id (dispatch_found p s cr)
  unfolding dispatch_found
  found-Ready = elim (Option-cases (lookup cr.id s.id_cr)) [
    | inr (q, taken) ↦ rw (taken, dispatch_found) tt
    | inl new ↦
        rw (new, dispatch_found)
          (Ready-bind cr.id (configured s cr) _ (λ cr' conf. dispatched-Ready cr' conf new))
  ]

  dispatch-Ready : Ready cr.id (dispatch_task p s)
  unfolding dispatch_task
  dispatch-Ready = rw (here, dispatch_task) found-Ready

Ready-cond :
    (id : ℕ) (b : Bool) (s : SchedulerClassic) (x : Option (SchedulerClassic × Bool))
    → Ready id x
    → Ready id (if b then some (s, false) else x)
Ready-cond id true s x h = tt
Ready-cond id false s x h = h

create-Ready :
    (now id : ℕ) (name : Text) (s : SchedulerClassic)
    → Registered s.shared s.id_cr
    → Ready id (create_task now id name s)
unfolding create_task create
create-Ready now id name s r = Ready-cond id s.stopped s _ (
    dispatch-Ready (length s.shared.routines) _
      (append-Registered s.shared s.id_cr (create now id name) r) (create now id name)
      (get_elem?-append_end s.shared.routines (create now id name)) refl refl)

-- In a state that a scheduler reaches, a `CreateTask` that returns true registers a routine under its id,
-- and from then on, as the state is, `NextRoutine` of a context of that routine's group that is not
-- stopped returns a routine.
pub created_runs :
    (groups : List SchedGroup) (confs : List (Text × ClassicTask)) (s s' : SchedulerClassic)
    (now id : ℕ) (name : Text)
    → Reaches (started groups confs) s
    → create_task now id name s ≡ some (s', true)
    → (p : ℕ) × (cr : Croutine) × (lookup id s'.id_cr ≡ some p)
      × (get_elem? s'.shared.routines p ≡ some cr)
      × ((later : ℕ) (c : ClassicContext)
          → c.stopped ≡ false
          → c.current_grp ≡ cr.group_name
          → (q : ℕ) × ((next_routine later c s'.shared).1 ≡ some q))
created_runs groups confs s s' now id name reached e =
    let (p, cr, found, w) =
      subst (Ready id) e (create-Ready now id name s (reach-Registered groups confs s reached)) in
    (p, cr, found, w.at_p, Waits-runs s'.shared p cr w)

abbrev Gone : ℕ → Option (SchedulerClassic × Removal) → Type 0
Gone id none = Unit
Gone id (some (s, r)) = lookup id s.id_cr ≡ none

lookup-erase_self : (id : ℕ) (ids : List (ℕ × ℕ)) → lookup id (erase id ids) ≡ none
lookup-erase_self id ids = ground (arith, lookup-erase id id ids)

finish-Gone :
    (id : ℕ) (s : SchedulerClassic) (out : Option (Shared × Removal))
    → Gone id (out >>= λ o. some (finish_removal (record s { id_cr = erase id s.id_cr }) o))
unfolding finish_removal
finish-Gone id s none = tt
finish-Gone id s (some (shared, r)) = lookup-erase_self id s.id_cr

bind-Gone :
    (id p : ℕ) (s : SchedulerClassic) (m : Option Croutine)
    → Gone id (m >>= remove_registered id p s)
unfolding remove_registered
bind-Gone id p s none = tt
bind-Gone id p s (some cr) = finish-Gone id s _

remove-Gone : (id : ℕ) (s : SchedulerClassic) → Gone id (remove_task_id id s)
unfolding remove_task_id
remove-Gone id s = elim (Option-cases (lookup id s.id_cr)) [
  | inl out ↦ rw (out, remove_task_id) out
  | inr (p, mine) ↦ rw (mine, remove_task_id) (bind-Gone id p s _)
]

-- In a state that a scheduler reaches, once a removal of an id has returned, no task is registered under
-- the id and no routine with the id is in a queue of any group.
pub removed_gone :
    (groups : List SchedGroup) (confs : List (Text × ClassicTask)) (s s' : SchedulerClassic)
    (id : ℕ) (b : Bool)
    → Reaches (started groups confs) s
    → remove_task_id id s ≡ some (s', returned b)
    → (lookup id s'.id_cr ≡ none)
      × ((group : Text) (prio p : ℕ) (cr : Croutine)
          → In p (queue_at group prio s'.shared)
          → get_elem? s'.shared.routines p ≡ some cr
          → cr.id ≢ id)
unfolding step
removed_gone groups confs s s' id b reached e =
    let gone : lookup id s'.id_cr ≡ none = subst (Gone id) e (remove-Gone id s) in
    let r = reach-Registered groups confs s' (after (removes id) b reached e) in
    (
      gone,
      λ group prio p cr inside at_p same.
          let (k, there, found) = r.listed group prio p inside in
          let is_k =
            (placed-inj (ident_of cr) (placed k group prio) (sym (ap some_ident at_p) ∙ there)).0 in
          let found' : lookup id s'.id_cr ≡ some p =
            ap (λ x. lookup x s'.id_cr) (sym (sym is_k ∙ same)) ∙ found in
          cc,
    )
