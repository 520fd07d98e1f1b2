-- ===== src/Scheduler/SchedulerClassic/Turns.antt =====
-- The steps of the processors keep the tasks registered as they are queued.
use cmw.Prelude.{
  ℕ, zero, suc, ◌≡◌, refl, ◌∙◌, inl, inr, Bool, true, false, List, [], ◌∷◌, Option, none, some,
  arith, get_elem?, get_or, set, Option-cases, Bool-cases, if◌then◌else◌,
}
use cmw.Prelude.Assoc.{nat_eq, text_eq}
use cmw.Croutine.{Croutine, acquire, release, update_state, resume}
use cmw.Scheduler.ClassicContext.{
  Shared, ClassicContext, queues_of, Removal, returned, next_routine, scan_from, scan_queue,
  try_routine, waited,
}
use cmw.Scheduler.Processor.{turn, run_routine}
use cmw.Scheduler.SchedulerClassic.{SchedulerClassic}
use cmw.Scheduler.SchedulerClassic.Registered.{
  ident_of, ident_at, Registered, Registered-frame, ident_at-write,
}
use cmw.Scheduler.SchedulerClassic.Calls.{Sound, write-Registered}

-- What a routine's function may change of its routine: a function leaves the rest as it is.
abbrev pub Keeps : (Croutine → Croutine) → Type 0
Keeps function = (cr : Croutine) → ident_of (function cr) ≡ ident_of cr

abbrev pub with_shared : SchedulerClassic → Option Shared → Option (SchedulerClassic × Removal)
with_shared s none = none
with_shared s (some shared) = some (record s { shared = shared }, returned true)

try-ident : (now : ℕ) (cr : Croutine) → ident_of (try_routine now cr).0 ≡ ident_of cr
unfolding try_routine acquire release update_state
try-ident now cr = ground arith

resume-ident :
    (function : Croutine → Croutine) (cr : Croutine)
    → Keeps function
    → ident_of (release (resume function cr).0) ≡ ident_of cr
unfolding release resume
resume-ident function cr keeps = ground (arith, keeps cr)

scan_queue-ident :
    (now : ℕ) (ps : List ℕ) (rs : List Croutine) (q : ℕ)
    → ident_at (scan_queue now ps rs).0 q ≡ ident_at rs q
unfolding scan_queue
scan_queue-ident now [] rs q = refl
scan_queue-ident now (p ∷ ps) rs q = elim (Option-cases (get_elem? rs p)) [
  | inl out ↦ rw (out, scan_queue) (scan_queue-ident now ps rs q)
  | inr (cr, at_p) ↦
      let cr' = (try_routine now cr).0 in
      let same = ident_at-write rs p cr cr' at_p (try-ident now cr) q in
      elim (Bool-cases (try_routine now cr).1) [
        | inl taken ↦ rw (at_p, scan_queue) (rw taken same)
        | inr passed ↦
            rw (at_p, scan_queue) (rw passed (scan_queue-ident now ps (set rs p cr') q ∙ same))
      ]
]

scan_from-ident :
    (now i : ℕ) (queues : List (List ℕ)) (rs : List Croutine) (q : ℕ)
    → ident_at (scan_from now i queues rs).0 q ≡ ident_at rs q
unfolding scan_from
scan_from-ident now zero queues rs q = refl
scan_from-ident now (suc i) queues rs q =
    let same = scan_queue-ident now (get_or queues i []) rs q in
    elim (Option-cases (scan_queue now (get_or queues i []) rs).1) [
      | inl more ↦ rw (more, scan_from) (scan_from-ident now i queues _ q ∙ same)
      | inr (p, found) ↦ rw (found, scan_from) same
    ]

next-Registered :
    (now : ℕ) (c : ClassicContext) (s : Shared) (ids : List (ℕ × ℕ))
    → Registered s ids
    → Registered (next_routine now c s).0 ids
unfolding next_routine queues_of
next-Registered now c s ids r = elim (Bool-cases c.stopped) [
  | inl off ↦ rw off r
  | inr on ↦ rw on (
      Registered-frame s _ ids (λ g. refl)
        (λ p x e. scan_from-ident now 20 (queues_of c.current_grp s) s.routines p ∙ e) r)
]

cond-Registered :
    (b : Bool) (x y : Shared) (ids : List (ℕ × ℕ))
    → Registered x ids
    → Registered y ids
    → Registered (if b then x else y) ids
cond-Registered true x y ids hx hy = hx
cond-Registered false x y ids hx hy = hy

waited-Registered :
    (c : ClassicContext) (s : Shared) (ids : List (ℕ × ℕ))
    → Registered s ids
    → Registered (waited c s) ids
unfolding waited queues_of
waited-Registered c s ids r =
    cond-Registered _ _ s ids (Registered-frame s _ ids (λ g. refl) (λ p x e. e) r) r

pub turn-Registered :
    (now : ℕ) (c : ClassicContext) (s : Shared) (ids : List (ℕ × ℕ))
    → Registered s ids
    → Registered (turn now c s).0 ids
unfolding turn
turn-Registered now c s ids r = elim (Option-cases (next_routine now c s).1) [
  | inl idle ↦ rw (idle, turn) (waited-Registered c _ ids (next-Registered now c s ids r))
  | inr (p, found) ↦ rw (found, turn) (next-Registered now c s ids r)
]

pub run-Sound :
    (function : Croutine → Croutine) (keeps : Keeps function) (p : ℕ) (s : SchedulerClassic)
    → Registered s.shared s.id_cr
    → Sound (with_shared s (run_routine function p s.shared))
unfolding run_routine
run-Sound function keeps p s r = elim (Option-cases (get_elem? s.shared.routines p)) [
  | inl out ↦ rw (out, run_routine) tt
  | inr (cr, at_p) ↦
      rw (at_p, run_routine)
        (write-Registered s.shared s.id_cr p cr _ at_p (resume-ident function cr keeps) r)
]
