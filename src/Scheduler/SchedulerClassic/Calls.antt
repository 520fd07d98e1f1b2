-- ===== src/Scheduler/SchedulerClassic/Calls.antt =====
-- Every call keeps the tasks registered as they are queued.
use cmw.Prelude.{
  ℕ, zero, suc, ◌≡◌, ◌<◌, refl, ◌∙◌, inl, inr, Bool, true, false, List, [], ◌∷◌, ◌++◌, Option, none,
  some, arith, get_elem?, set, Option-cases, ◌>>=◌, if◌then◌else◌,
}
use cmw.Prelude.Assoc.{Text, nat_eq, text_eq, lookup}
use cmw.Croutine.{Croutine, set_update_flag}
use cmw.Scheduler.ClassicContext.{Shared, queues_of, notify, Removal, returned, waiting}
use cmw.Scheduler.SchedulerClassic.{
  SchedulerClassic, configured, clamped, enqueue, dispatch_task, dispatched, dispatch_found,
  create_task, notify_found,
}
use cmw.Scheduler.SchedulerClassic.Registered.{
  Ident, ident_of, ident_at, Registered, Registered-frame, ident_at-write, enqueue-Registered,
}

-- What a call that completes leaves behind is registered.
abbrev pub Sound : Option (SchedulerClassic × Removal) → Type 0
Sound none = Unit
Sound (some (s, returned b)) = Registered s.shared s.id_cr
Sound (some (s, waiting)) = Unit

pub Sound-bind :
    {A : Type 0} (m : Option A) (f : A → Option (SchedulerClassic × Removal))
    → ((a : A) → m ≡ some a → Sound (f a))
    → Sound (m >>= f)
Sound-bind none f h = tt
Sound-bind (some a) f h = h a refl

-- The result of a call that returns a Boolean
abbrev pub as_removal : Option (SchedulerClassic × Bool) → Option (SchedulerClassic × Removal)
as_removal none = none
as_removal (some (s, b)) = some (s, returned b)

as_removal-bind :
    {A : Type 0} (m : Option A) (f : A → Option (SchedulerClassic × Bool))
    → as_removal (m >>= f) ≡ (m >>= λ a. as_removal (f a))
as_removal-bind none f = refl
as_removal-bind (some a) f = refl

notify-Registered :
    (g : Text) (s : Shared) (ids : List (ℕ × ℕ)) → Registered s ids → Registered (notify g s) ids
unfolding notify queues_of
notify-Registered g s ids r = Registered-frame s _ ids (λ h. refl) (λ p x e. e) r

pub write-Registered :
    (s : Shared) (ids : List (ℕ × ℕ)) (p : ℕ) (old cr : Croutine)
    → get_elem? s.routines p ≡ some old
    → ident_of cr ≡ ident_of old
    → Registered s ids
    → Registered (record s { routines = set s.routines p cr }) ids
unfolding queues_of
write-Registered s ids p old cr here same r =
    Registered-frame s _ ids (λ h. refl)
      (λ q x e. ident_at-write s.routines p old cr here same q ∙ e) r

pub configured_id :
    (s : SchedulerClassic) (cr cr' : Croutine)
    → configured s cr ≡ some cr'
    → (clamped cr').id ≡ cr.id
unfolding configured clamped
configured_id s cr cr' e = ground arith

pub clamped_below : (cr : Croutine) → (clamped cr).priority < 20
unfolding clamped
clamped_below cr = ground arith

module _ (p : ℕ) (s : SchedulerClassic) (r : Registered s.shared s.id_cr) where
  configured-Sound :
      (cr : Croutine)
      → get_elem? s.shared.routines p ≡ some cr
      → lookup cr.id s.id_cr ≡ none
      → Sound (as_removal (configured s cr >>= λ cr'. some (dispatched p cr cr' s)))
  unfolding dispatched enqueue
  configured-Sound cr here new =
      rw (as_removal-bind (configured s cr) (λ cr'. some (dispatched p cr cr' s))) (
        Sound-bind (configured s cr) _ (λ cr' conf. notify-Registered _ _ _ (
          enqueue-Registered s.shared s.id_cr p cr (clamped cr') r here new
            (configured_id s cr cr' conf) (clamped_below cr'))))

  found-Sound :
      (cr : Croutine)
      → get_elem? s.shared.routines p ≡ some cr
      → Sound (as_removal (dispatch_found p s cr))
  unfolding dispatch_found
  found-Sound cr here = elim (Option-cases (lookup cr.id s.id_cr)) [
    | inr (q, taken) ↦ rw (taken, dispatch_found) r
    | inl new ↦ rw (new, dispatch_found) (configured-Sound cr here new)
  ]

  dispatch-Sound : Sound (as_removal (dispatch_task p s))
  unfolding dispatch_task
  dispatch-Sound =
      rw (as_removal-bind (get_elem? s.shared.routines p) (dispatch_found p s))
        (Sound-bind (get_elem? s.shared.routines p) _ found-Sound)

ident_at-append :
    (rs : List Croutine) (cr : Croutine) (p : ℕ) (x : Ident)
    → ident_at rs p ≡ some x
    → ident_at (rs ++ cr ∷ []) p ≡ some x
ident_at-append [] cr p x e = cc
ident_at-append (r ∷ rs) cr zero x e = e
ident_at-append (r ∷ rs) cr (suc p) x e = ident_at-append rs cr p x e

pub append-Registered :
    (s : Shared) (ids : List (ℕ × ℕ)) (cr : Croutine)
    → Registered s ids
    → Registered (record s { routines = s.routines ++ cr ∷ [] }) ids
unfolding queues_of
append-Registered s ids cr r =
    Registered-frame s _ ids (λ h. refl) (ident_at-append s.routines cr) r

Sound-cond :
    (b : Bool) (x y : Option (SchedulerClassic × Bool))
    → Sound (as_removal x)
    → Sound (as_removal y)
    → Sound (as_removal (if b then x else y))
Sound-cond true x y hx hy = hx
Sound-cond false x y hx hy = hy

pub create-Sound :
    (now id : ℕ) (name : Text) (s : SchedulerClassic)
    → Registered s.shared s.id_cr
    → Sound (as_removal (create_task now id name s))
unfolding create_task
create-Sound now id name s r =
    Sound-cond s.stopped _ _ r (dispatch-Sound _ _ (append-Registered s.shared s.id_cr _ r))

flag-ident :
    (b : Bool) (cr : Croutine) → ident_of (if b then set_update_flag cr else cr) ≡ ident_of cr
unfolding set_update_flag
flag-ident true cr = refl
flag-ident false cr = refl

pub notify_found-Registered :
    (p : ℕ) (cr : Croutine) (s : SchedulerClassic)
    → get_elem? s.shared.routines p ≡ some cr
    → Registered s.shared s.id_cr
    → Registered (notify_found p cr s).shared (notify_found p cr s).id_cr
unfolding notify_found set_update_flag
notify_found-Registered p cr s here r =
    notify-Registered _ _ _ (write-Registered s.shared s.id_cr p cr _ here (flag-ident _ cr) r)
