-- ===== src/Scheduler/ClassicContext.antt =====
-- scheduler/policy/classic_context.cpp: the queues of the groups, one for each priority, that the
-- processors of a group share. A queue holds pointers: the routines are in a store, at the index that
-- stands for the address. A call holds the locks of what it reads, so it is one step.
pub mod Pick
use cmw.Prelude.{
  ℕ, zero, suc, ◌+◌, ◌-◌, Bool, true, false, not, List, [], ◌∷◌, Option, none, some, ltb, ◌==◌,
  if◌then◌else◌, get_elem?, get_or, set, replicate, ◌>>=◌,
}
use cmw.Prelude.Assoc.{Text, text_eq, lookup, insert}
use cmw.Croutine.{Croutine, acquire, release, update_state, is_ready, stop}

abbrev pub max_prio : ℕ
max_prio = 20

-- The static members
pub record Shared : Type 0 where
  pub routines : List Croutine
  pub cr_group : List (Text × List (List ℕ))
  pub notify_grp : List (Text × ℕ)

pub record ClassicContext : Type 0 where
  pub stopped : Bool
  pub current_grp : Text

-- `operator[]` of the maps: a missing key is added with a value of its own.
abbrev found_or {ℓ} : {A : Type ℓ} → A → Option A → A
found_or d none = d
found_or d (some a) = a

unfoldable pub queues_of : Text → Shared → List (List ℕ)
queues_of group s = found_or (replicate max_prio []) (lookup group s.cr_group)

unfoldable pub notified : Text → Shared → ℕ
notified group s = found_or 0 (lookup group s.notify_grp)

-- The constructor with `InitGroup`
unfoldable pub init_group : Text → Shared → ClassicContext × Shared
unfolding queues_of
init_group group s = (
  record { stopped = false; current_grp = group },
  record s {
    cr_group = insert group (queues_of group s) s.cr_group;
    notify_grp = insert group 0 s.notify_grp;
  },
)

-- A turn of the inner loop of `NextRoutine`: what becomes of the routine, and whether it is returned.
unfoldable pub try_routine : (now : ℕ) → Croutine → Croutine × Bool
unfolding acquire release update_state
try_routine now cr =
    let (held, got) = acquire cr in
    let (updated, state) = update_state now held in
    if not got
    then (held, false)
    else if is_ready state
    then (updated, true)
    else (release updated, false)

module _ (now : ℕ) where
  -- The inner loop
  unfoldable pub scan_queue : List ℕ → List Croutine → List Croutine × Option ℕ
  unfolding try_routine
  scan_queue [] routines = (routines, none)
  scan_queue (p ∷ ps) routines = elim (get_elem? routines p) [
    | none ↦ scan_queue ps routines
    | some cr ↦
        let (cr', taken) = try_routine now cr in
        let rest = scan_queue ps (set routines p cr') in
        if taken then (set routines p cr', some p) else rest
  ]

  -- The outer loop, from priority `i - 1` down to 0
  unfoldable pub scan_from : ℕ → List (List ℕ) → List Croutine → List Croutine × Option ℕ
  unfolding scan_queue
  scan_from zero queues routines = (routines, none)
  scan_from (suc i) queues routines =
      let (routines', found) = scan_queue (get_or queues i []) routines in
      elim found [ some p ↦ (routines', some p) | none ↦ scan_from i queues routines' ]

unfoldable pub next_routine : (now : ℕ) → ClassicContext → Shared → Shared × Option ℕ
unfolding scan_from queues_of
next_routine now c s =
    let (routines', found) = scan_from now max_prio (queues_of c.current_grp s) s.routines in
    if c.stopped then (s, none) else (record s { routines = routines' }, found)

-- `Wait`, from the moment at which `wait_for` returns
unfoldable pub waited : ClassicContext → Shared → Shared
unfolding notified
waited c s =
    let n = notified c.current_grp s in
    if ltb 0 n then record s { notify_grp = insert c.current_grp (n - 1) s.notify_grp } else s

unfoldable pub shutdown : ClassicContext → Shared → ClassicContext × Shared
shutdown c s =
    (record c { stopped = true }, record s { notify_grp = insert c.current_grp 255 s.notify_grp })

-- `Notify`
unfoldable pub notify : Text → Shared → Shared
unfolding notified
notify group s = record s { notify_grp = insert group (notified group s + 1) s.notify_grp }

-- How a removal ends: it returns, or it waits for the processor that holds the routine.
pub data Removal : Type 0 where
  returned : Bool → Removal
  waiting : Removal

abbrev pub kept_first : ℕ → Option (ℕ × Croutine × List ℕ) → Option (ℕ × Croutine × List ℕ)
kept_first p none = none
kept_first p (some (q, cr, rest)) = some (q, cr, p ∷ rest)

-- The search of `RemoveCRoutine`: the first with the id, and the queue without it
unfoldable pub take_out : (id : ℕ) → List Croutine → List ℕ → Option (ℕ × Croutine × List ℕ)
take_out id routines [] = none
take_out id routines (p ∷ ps) =
    let rest = kept_first p (take_out id routines ps) in
    elim (get_elem? routines p) [
      | none ↦ rest
      | some cr ↦ if cr.id == id then some (p, cr, ps) else rest
    ]

-- A queue of a group is replaced.
unfoldable pub put_queue : Text → ℕ → List ℕ → Shared → Shared
unfolding queues_of
put_queue group prio queue s = record s {
  cr_group = insert group (set (queues_of group s) prio queue) s.cr_group;
}

-- A routine that is acquired is erased and released.
unfoldable pub leave_queue :
    Bool → Text → (prio p : ℕ) → Croutine → List ℕ → Shared → Shared × Removal
unfolding put_queue release
leave_queue true group prio p held rest s = (
  put_queue group prio rest (record s { routines = set s.routines p (release held) }),
  returned true,
)
leave_queue false group prio p held rest s =
    (record s { routines = set s.routines p held }, waiting)

-- What `RemoveCRoutine` does with the routine found
unfoldable pub remove_found : Text → (prio p : ℕ) → Croutine → List ℕ → Shared → Shared × Removal
unfolding leave_queue acquire stop
remove_found group prio p cr rest s =
    let (held, got) = acquire (stop cr) in leave_queue got group prio p held rest s

unfoldable pub remove_from : Croutine → Shared → List ℕ → Option (Shared × Removal)
unfolding remove_found take_out
remove_from cr s queue = elim (take_out cr.id s.routines queue) [
  | none ↦ some (s, returned false)
  | some (p, found, rest) ↦ some (remove_found cr.group_name cr.priority p found rest s)
]

-- `RemoveCRoutine`; `none` is the exception of `at` for a priority out of range.
unfoldable pub remove_croutine : Croutine → Shared → Option (Shared × Removal)
unfolding remove_from queues_of
remove_croutine cr s = get_elem? (queues_of cr.group_name s) cr.priority >>= remove_from cr s
