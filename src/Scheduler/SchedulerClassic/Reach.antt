-- ===== src/Scheduler/SchedulerClassic/Reach.antt =====
-- The states that a scheduler reaches by calls that return.
use cmw.Prelude.{
  Distinct, ℕ, zero, suc, ◌≡◌, refl, sym, inl, inr, Bool, true, false, List, [], ◌∷◌, Option, some,
  arith, get_elem?, get_or, In, subst, replicate, Option-cases, if◌then◌else◌, length-replicate,
}
use cmw.Prelude.Assoc.{Text, nat_eq, text_eq, text_beq_iff, lookup, lookup-insert}
use cmw.Croutine.{Croutine}
use cmw.Scheduler.ClassicContext.{Shared, ClassicContext, queues_of, init_group, Removal, returned}
use cmw.Scheduler.Processor.{turn, run_routine}
use cmw.Scheduler.SchedulerClassic.{
  SchedulerClassic, SchedGroup, ClassicTask, create_task, notify_processor, notify_registered,
  remove_task_id, create_contexts, create_processor,
}
use cmw.Scheduler.SchedulerClassic.Registered.{Registered, Registered-frame}
use cmw.Scheduler.SchedulerClassic.Calls.{Sound, as_removal, create-Sound, notify_found-Registered}
use cmw.Scheduler.SchedulerClassic.Removing.{remove-Sound}
use cmw.Scheduler.SchedulerClassic.Turns.{Keeps, with_shared, turn-Registered, run-Sound}

-- A call of the scheduler, or a step of a processor
pub data Call : Type 0 where
  creates : (now id : ℕ) → Text → Call
  notifies : ℕ → Call
  removes : ℕ → Call
  turns : (now : ℕ) → ClassicContext → Call
  runs : (function : Croutine → Croutine) → Keeps function → ℕ → Call

abbrev notified : SchedulerClassic × Bool → Option (SchedulerClassic × Removal)
notified (s, b) = some (s, returned b)

unfoldable pub step : Call → SchedulerClassic → Option (SchedulerClassic × Removal)
step (creates now id name) s = as_removal (create_task now id name s)
step (notifies id) s = notified (notify_processor id s)
step (removes id) s = remove_task_id id s
step (turns now c) s = some (record s { shared = (turn now c s.shared).0 }, returned true)
step (runs function keeps p) s = with_shared s (run_routine function p s.shared)

pub data Reaches (s : SchedulerClassic) : SchedulerClassic → Type 0 where
  at_start : Reaches s s
  after :
      {t u : SchedulerClassic} (call : Call) (b : Bool)
      → Reaches s t
      → step call t ≡ some (u, returned b)
      → Reaches s u

abbrev OneSound : SchedulerClassic × Bool → Type 0
OneSound (s, b) = Registered s.shared s.id_cr

OneSound-cond :
    (b : Bool) (x y : SchedulerClassic × Bool)
    → OneSound x
    → OneSound y
    → OneSound (if b then x else y)
OneSound-cond true x y hx hy = hx
OneSound-cond false x y hx hy = hy

found-OneSound :
    (id : ℕ) (s : SchedulerClassic)
    → Registered s.shared s.id_cr
    → OneSound (notify_registered id s)
unfolding notify_registered
found-OneSound id s r = elim (Option-cases (lookup id s.id_cr)) [
  | inl out ↦ rw (out, notify_registered) r
  | inr (p, mine) ↦
      rw (mine, notify_registered)
        (elim (Option-cases (get_elem? s.shared.routines p)) [
          | inl gone ↦ rw gone r
          | inr (cr, at_p) ↦ rw at_p (notify_found-Registered p cr s at_p r)
        ])
]

notify-Sound :
    (id : ℕ) (s : SchedulerClassic)
    → Registered s.shared s.id_cr
    → Sound (notified (notify_processor id s))
unfolding notify_processor
notify-Sound id s r = OneSound-cond s.stopped _ _ r (found-OneSound id s r)

step-Sound :
    (call : Call) (s : SchedulerClassic) → Registered s.shared s.id_cr → Sound (step call s)
unfolding step
step-Sound (creates now id name) s r = create-Sound now id name s r
step-Sound (notifies id) s r = notify-Sound id s r
step-Sound (removes id) s r = remove-Sound id s r
step-Sound (turns now c) s r = turn-Registered now c s.shared s.id_cr r
step-Sound (runs function keeps p) s r = run-Sound function keeps p s r

abbrev unprocessed : List SchedGroup → List (Text × ClassicTask) → SchedulerClassic
unprocessed groups confs = record {
  stopped = false;
  shared = record { routines = []; cr_group = []; notify_grp = [] };
  id_cr = [];
  cr_confs = confs;
  groups = groups;
  pctxs = [];
  task_pool_size = 0;
}

-- The constructor, for the groups and tasks of the configuration
abbrev pub started : List SchedGroup → List (Text × ClassicTask) → SchedulerClassic
started groups confs = create_processor groups (unprocessed groups confs)

init-Registered :
    (g : Text) (s : Shared) (ids : List (ℕ × ℕ))
    → Registered s ids
    → Registered (init_group g s).1 ids
unfolding init_group queues_of
init-Registered g s ids r = Registered-frame s _ ids same (λ p x e. e) r
  where
    same : (h : Text) → queues_of h (init_group g s).1 ≡ queues_of h s
    same h = ground (arith, lookup-insert g h (queues_of g s) s.cr_group, text_beq_iff g h)

contexts-Registered :
    (n : ℕ) (g : Text) (s : SchedulerClassic)
    → Registered s.shared s.id_cr
    → Registered (create_contexts n g s).shared (create_contexts n g s).id_cr
unfolding create_contexts
contexts-Registered zero g s r = r
contexts-Registered (suc n) g s r = contexts-Registered n g _ (init-Registered g s.shared s.id_cr r)

processors-Registered :
    (groups : List SchedGroup) (s : SchedulerClassic)
    → Registered s.shared s.id_cr
    → Registered (create_processor groups s).shared (create_processor groups s).id_cr
unfolding create_processor
processors-Registered [] s r = r
processors-Registered (g ∷ groups) s r =
    processors-Registered groups _ (contexts-Registered g.processor_num g.name _ r)

get_or-empty : (n i : ℕ) → get_or {A = List ℕ} (replicate n []) i [] ≡ []
get_or-empty zero i = refl
get_or-empty (suc n) zero = refl
get_or-empty (suc n) (suc i) = get_or-empty n i

empty-Registered :
    (groups : List SchedGroup) (confs : List (Text × ClassicTask))
    → Registered (unprocessed groups confs).shared []
unfolding queues_of lookup
empty-Registered groups confs = record {
  sized = λ g. length-replicate {A = List ℕ} 20 [];
  found = λ id p e. absurd cc;
  listed = λ g i p inside. absurd (subst (λ l. In p l) (get_or-empty 20 i) inside);
  once = λ g i. subst (λ l. Distinct l) (sym (get_or-empty 20 i)) tt;
}

Sound-returned :
    (o : Option (SchedulerClassic × Removal)) (s : SchedulerClassic) (b : Bool)
    → Sound o
    → o ≡ some (s, returned b)
    → Registered s.shared s.id_cr
Sound-returned o s b h e = subst Sound e h

pub reach-Registered :
    (groups : List SchedGroup) (confs : List (Text × ClassicTask)) (s : SchedulerClassic)
    → Reaches (started groups confs) s
    → Registered s.shared s.id_cr
reach-Registered groups confs _ at_start =
    processors-Registered groups _ (empty-Registered groups confs)
reach-Registered groups confs _ (after {t = t} {u = u} call b before e) =
    Sound-returned _ u b (step-Sound call t (reach-Registered groups confs t before)) e
