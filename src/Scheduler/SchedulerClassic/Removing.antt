-- ===== src/Scheduler/SchedulerClassic/Removing.antt =====
-- A removal that returns leaves the tasks registered as they are queued.
use cmw.Prelude.{
  ℕ, ◌≡◌, ◌<◌, refl, sym, ap, ◌∙◌, inl, inr, Bool, true, false, not, List, [], Option, none, some,
  get_elem?, In, subst, Option-cases, get_elem?-some-lt, ◌>>=◌, get_elem?-set_self,
}
use cmw.Prelude.Assoc.{nat_eq, text_eq, lookup, erase}
use cmw.Croutine.{Croutine, stop, acquire, release}
use cmw.Scheduler.ClassicContext.{
  Shared, queues_of, remove_croutine, remove_found, leave_queue, remove_from, Removal, returned,
  waiting,
}
use cmw.Scheduler.SchedulerClassic.{
  SchedulerClassic, remove_registered, remove_task_id, finish_removal,
}
use cmw.Scheduler.SchedulerClassic.Queues.{queue_at, take_out_lem, TakenOut, get_elem?-get_or}
use cmw.Scheduler.SchedulerClassic.Registered.{
  ident_of, some_ident, placed, Registered, ident_at-write,
}
use cmw.Scheduler.SchedulerClassic.Leaving.{placed-inj, leave-Registered}
use cmw.Scheduler.SchedulerClassic.Calls.{Sound, Sound-bind, write-Registered}

-- The same of a removal from the queues, for the ids that are left
abbrev SharedSound : List (ℕ × ℕ) → Option (Shared × Removal) → Type 0
SharedSound ids none = Unit
SharedSound ids (some (s, returned b)) = Registered s ids
SharedSound ids (some (s, waiting)) = Unit

module _ (s : Shared) (ids : List (ℕ × ℕ)) (r : Registered s ids) (id p : ℕ) (cr : Croutine)
    (here : get_elem? s.routines p ≡ some cr) (mine : lookup id ids ≡ some p) where
  place : (cr.id ≡ id) × (cr.priority < 20) × In p (queue_at cr.group_name cr.priority s)
  place =
      let (g, i, lt, at_p, inside) = r.found id p mine in
      let (same_id, same_g, same_i) =
        placed-inj (ident_of cr) (placed id g i) (sym (ap some_ident here) ∙ at_p) in
      (
        same_id,
        subst (λ j. j < 20) (sym same_i) lt,
        subst (λ h. In p (queue_at h cr.priority s)) (sym same_g)
            (subst (λ j. In p (queue_at g j s)) (sym same_i) inside),
      )

  only :
      (q : ℕ) (other : Croutine)
      → In q (queue_at cr.group_name cr.priority s)
      → get_elem? s.routines q ≡ some other
      → other.id ≡ cr.id
      → q ≡ p
  only q other inside at_q same =
      let (k, there, e) = r.listed cr.group_name cr.priority q inside in
      let is_k =
        (placed-inj (ident_of other) (placed k cr.group_name cr.priority)
          (sym (ap some_ident at_q) ∙ there)).0 in
      let e' : lookup id ids ≡ some q =
        ap (λ x. lookup x ids) (sym (sym is_k ∙ same ∙ place.0)) ∙ e in
      cc

  queue_found :
      get_elem? (queues_of cr.group_name s) cr.priority
      ≡ some (queue_at cr.group_name cr.priority s)
  queue_found =
      get_elem?-get_or (queues_of cr.group_name s) cr.priority []
        (rw (r.sized cr.group_name) place.1)

  leave_queue-Sound :
      (got : Bool) (held : Croutine) (rest : List ℕ)
      → ident_of held ≡ ident_of cr
      → TakenOut p (queue_at cr.group_name cr.priority s) rest
      → SharedSound (erase id ids) (some (leave_queue got cr.group_name cr.priority p held rest s))
  unfolding leave_queue release queues_of
  leave_queue-Sound true held rest same t =
      leave-Registered _ ids (write-Registered s ids p cr (release held) here same r) id p
        cr.group_name cr.priority rest mine
        (ident_at-write s.routines p cr (release held) here same p
          ∙ ap some_ident here
          ∙ ap (λ k. some (placed k cr.group_name cr.priority)) place.0)
        place.1 t
  leave_queue-Sound false held rest same t = tt

  removed-Sound : SharedSound (erase id ids) (remove_croutine cr s)
  unfolding remove_croutine remove_from remove_found acquire stop
  removed-Sound =
      let (rest, found, t) =
        take_out_lem cr.id s.routines p cr (queue_at cr.group_name cr.priority s) here refl place.2
          (r.once cr.group_name cr.priority) only in
      rw (queue_found, remove_croutine)
        (rw (found, remove_from) (leave_queue-Sound (not cr.locked) _ rest refl t))

module _ (crid p : ℕ) (s : SchedulerClassic) (cr : Croutine) where
  finish-Sound :
      (out : Option (Shared × Removal))
      → SharedSound (erase crid s.id_cr) out
      → Sound (out >>= λ o. some (finish_removal (record s { id_cr = erase crid s.id_cr }) o))
  unfolding finish_removal
  finish-Sound none h = tt
  finish-Sound (some (shared, returned b)) h = h
  finish-Sound (some (shared, waiting)) h = tt

  found-Sound :
      Registered s.shared s.id_cr
      → lookup crid s.id_cr ≡ some p
      → get_elem? s.shared.routines p ≡ some cr
      → Sound (remove_registered crid p s cr)
  unfolding remove_registered stop
  found-Sound r mine here = finish-Sound _ (
      removed-Sound _ s.id_cr (write-Registered s.shared s.id_cr p cr (stop cr) here refl r) crid p
        (stop cr)
        (get_elem?-set_self s.shared.routines p (stop cr)
          (get_elem?-some-lt s.shared.routines p cr here))
        mine)

pub remove-Sound :
    (crid : ℕ) (s : SchedulerClassic) → Registered s.shared s.id_cr → Sound (remove_task_id crid s)
unfolding remove_task_id
remove-Sound crid s r = elim (Option-cases (lookup crid s.id_cr)) [
  | inl out ↦ rw (out, remove_task_id) r
  | inr (p, mine) ↦
      rw (mine, remove_task_id)
        (Sound-bind (get_elem? s.shared.routines p) _
          (λ cr here. found-Sound crid p s cr r mine here))
]
