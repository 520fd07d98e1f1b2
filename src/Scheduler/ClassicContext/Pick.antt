-- ===== src/Scheduler/ClassicContext/Pick.antt =====
-- Which routine `NextRoutine` returns, and what it does to the others.
use cmw.Prelude.{
  ℕ, zero, suc, ◌≡◌, ◌≢◌, refl, sym, ap, ◌∙◌, ◌⊎◌, inl, inr, Bool, true, false, not, ◌&&◌, List, [],
  ◌∷◌, ◌++◌, Option, none, some, arith, if◌then◌else◌, get_elem?, get_or, set, Bool-cases, subst,
  Option-cases, get_elem?-set_self, get_elem?-set_ne, get_elem?-some-lt,
}
use native.Mathlib.Decide.{ℕ_discrete}
use cmw.Croutine.{Croutine, RoutineState, ready, acquire, release, update_state, is_ready}
use cmw.Scheduler.ClassicContext.{
  Shared, ClassicContext, queues_of, try_routine, scan_queue, scan_from, next_routine, max_prio,
}

abbrev pub is_runnable : (now : ℕ) → Croutine → Bool
is_runnable now cr = not cr.locked && is_ready (update_state now cr).1

abbrev pub runs_if : (now : ℕ) → Option Croutine → Bool
runs_if now none = false
runs_if now (some cr) = is_runnable now cr

abbrev pub runnable_at : (now : ℕ) → List Croutine → ℕ → Bool
runnable_at now routines p = runs_if now (get_elem? routines p)

unfoldable pub first_runnable : (now : ℕ) → List Croutine → List ℕ → Option ℕ
first_runnable now routines [] = none
first_runnable now routines (p ∷ ps) =
    let rest = first_runnable now routines ps in if runnable_at now routines p then some p else rest

-- The queues below priority `i`, from the highest priority down
unfoldable pub in_order : ℕ → List (List ℕ) → List ℕ
in_order zero queues = []
in_order (suc i) queues = get_or queues i [] ++ in_order i queues

module _ (now : ℕ) (cr : Croutine) where
  try-taken : (try_routine now cr).1 ≡ is_runnable now cr
  unfolding try_routine acquire release update_state
  try-taken = ground arith

  try-kept :
      is_runnable now cr ≡ false
      → ((try_routine now cr).0.locked ≡ cr.locked)
        × ((try_routine now cr).0.state ≡ cr.state)
        × (is_runnable now (try_routine now cr).0 ≡ false)
  unfolding try_routine acquire release update_state
  try-kept e = ground arith

  try-held :
      is_runnable now cr ≡ true
      → (cr.locked ≡ false)
        × ((try_routine now cr).0.locked ≡ true)
        × ((try_routine now cr).0.state ≡ ready)
  unfolding try_routine acquire release update_state
  try-held e = ground arith

-- What becomes of the routine at an address: untouched but for the flag of updates, or acquired.
abbrev lock_of : Option Croutine → Option Bool
lock_of none = none
lock_of (some cr) = some cr.locked

abbrev state_of : Option Croutine → Option RoutineState
state_of none = none
state_of (some cr) = some cr.state

abbrev pub locked_at : List Croutine → ℕ → Option Bool
locked_at routines q = lock_of (get_elem? routines q)

abbrev pub state_at : List Croutine → ℕ → Option RoutineState
state_at routines q = state_of (get_elem? routines q)

pub record Kept (before after : List Croutine) (q : ℕ) : Type 0 where
  pub lock_kept : locked_at after q ≡ locked_at before q
  pub state_kept : state_at after q ≡ state_at before q

pub record Acquired (before after : List Croutine) (q : ℕ) : Type 0 where
  pub was_free : locked_at before q ≡ some false
  pub is_held : locked_at after q ≡ some true
  pub made_ready : state_at after q ≡ some ready

-- Only the routine that is found is acquired.
abbrev pub Effect : List Croutine → List Croutine → Option ℕ → ℕ → Type 0
Effect before after found q =
    ((found ≡ some q) × Acquired before after q) ⊎ ((found ≢ some q) × Kept before after q)

abbrev Same : (now : ℕ) → List Croutine → List Croutine → Type 0
Same now rs rs' = (q : ℕ) → runnable_at now rs' q ≡ runnable_at now rs q

Effect-trans :
    (a b c : List Croutine) (found : Option ℕ) (q : ℕ)
    → Kept a b q
    → Effect b c found q
    → Effect a c found q
Effect-trans a b c found q k (inl (e, t)) = inl (
  e,
  record {
    was_free = sym k.lock_kept ∙ t.was_free;
    is_held = t.is_held;
    made_ready = t.made_ready;
  },
)
Effect-trans a b c found q k (inr (ne, t)) =
    inr (
      ne,
      record { lock_kept = t.lock_kept ∙ k.lock_kept; state_kept = t.state_kept ∙ k.state_kept },
    )

module _ (now : ℕ) (rs : List Croutine) (p : ℕ) (cr : Croutine)
    (here : get_elem? rs p ≡ some cr) where
  abbrev cr' : Croutine
  cr' = (try_routine now cr).0

  there : get_elem? (set rs p cr') p ≡ some cr'
  there = get_elem?-set_self rs p cr' (get_elem?-some-lt rs p cr here)

  module _ (stays : is_runnable now cr ≡ false) where
    pass-Same : Same now rs (set rs p cr')
    pass-Same q = elim (ℕ_discrete p q) [
      | yes e ↦
          ap (runs_if now) (ap (get_elem? (set rs p cr')) (sym e) ∙ there)
          ∙ (try-kept now cr stays).2
          ∙ sym (ap (runs_if now) (ap (get_elem? rs) (sym e) ∙ here) ∙ stays)
      | no ne ↦ ap (runs_if now) (get_elem?-set_ne rs cr' ne)
    ]

    pass-Kept : (q : ℕ) → Kept rs (set rs p cr') q
    pass-Kept q = elim (ℕ_discrete p q) [
      | yes e ↦ record {
        lock_kept =
            ap lock_of (ap (get_elem? (set rs p cr')) (sym e) ∙ there)
            ∙ ap some (try-kept now cr stays).0
            ∙ sym (ap lock_of (ap (get_elem? rs) (sym e) ∙ here));
        state_kept =
            ap state_of (ap (get_elem? (set rs p cr')) (sym e) ∙ there)
            ∙ ap some (try-kept now cr stays).1
            ∙ sym (ap state_of (ap (get_elem? rs) (sym e) ∙ here));
      }
      | no ne ↦ record {
        lock_kept = ap lock_of (get_elem?-set_ne rs cr' ne);
        state_kept = ap state_of (get_elem?-set_ne rs cr' ne);
      }
    ]

  take-Effect : is_runnable now cr ≡ true → (q : ℕ) → Effect rs (set rs p cr') (some p) q
  take-Effect go q = elim (ℕ_discrete p q) [
    | yes e ↦ inl (
      ap some e,
      record {
        was_free = ap lock_of (ap (get_elem? rs) (sym e) ∙ here) ∙ ap some (try-held now cr go).0;
        is_held =
            ap lock_of (ap (get_elem? (set rs p cr')) (sym e) ∙ there)
            ∙ ap some (try-held now cr go).1;
        made_ready =
            ap state_of (ap (get_elem? (set rs p cr')) (sym e) ∙ there)
            ∙ ap some (try-held now cr go).2;
      },
    )
    | no ne ↦ inr (
      λ e. ne (cc),
      record {
        lock_kept = ap lock_of (get_elem?-set_ne rs cr' ne);
        state_kept = ap state_of (get_elem?-set_ne rs cr' ne);
      },
    )
  ]

module _ (now : ℕ) where
  first_runnable-cong :
      (rs rs' : List Croutine) (ps : List ℕ)
      → Same now rs rs'
      → first_runnable now rs' ps ≡ first_runnable now rs ps
  unfolding first_runnable
  first_runnable-cong rs rs' [] same = refl
  first_runnable-cong rs rs' (p ∷ ps) same = rw (same p, first_runnable-cong rs rs' ps same) refl

  first_runnable-append :
      (rs : List Croutine) (xs ys : List ℕ)
      → ((p : ℕ) → first_runnable now rs xs ≡ some p → first_runnable now rs (xs ++ ys) ≡ some p)
        × (first_runnable now rs xs ≡ none
            → first_runnable now rs (xs ++ ys) ≡ first_runnable now rs ys)
  unfolding first_runnable
  first_runnable-append rs [] ys = (λ p e. cc, λ e. refl)
  first_runnable-append rs (x ∷ xs) ys = elim (Bool-cases (runnable_at now rs x)) [
    | inl go ↦ rw go (λ p e. e, λ e. cc)
    | inr stays ↦ rw stays (first_runnable-append rs xs ys)
  ]

  -- A scan that starts at a store `rs` finds the first that can run, acquires it alone, and if there is
  -- none leaves every routine as able to run as it was.
  abbrev Scanned : List Croutine → List ℕ → List Croutine × Option ℕ → Type 0
  Scanned rs ps (rs', found) =
      (found ≡ first_runnable now rs ps)
      × ((q : ℕ) → Effect rs rs' found q)
      × (found ≡ none → Same now rs rs')

  Kept-refl : (rs : List Croutine) (q : ℕ) → Kept rs rs q
  Kept-refl rs q = record { lock_kept = refl; state_kept = refl }

  scan_queue_lem : (ps : List ℕ) (rs : List Croutine) → Scanned rs ps (scan_queue now ps rs)
  unfolding scan_queue first_runnable
  scan_queue_lem [] rs = (refl, λ q. inr (λ e. cc, Kept-refl rs q), λ e q. refl)
  scan_queue_lem (p ∷ ps) rs = elim (Option-cases (get_elem? rs p)) [
    | inl out ↦ rw (out, scan_queue, first_runnable) (scan_queue_lem ps rs)
    | inr (cr, here) ↦ elim (Bool-cases (is_runnable now cr)) [
      | inl go ↦
          let taken : (try_routine now cr).1 ≡ true = try-taken now cr ∙ go in
          rw (here, scan_queue, first_runnable)
            (rw (taken, go) (refl, take-Effect now rs p cr here go, λ e. cc))
      | inr stays ↦
          let passed : (try_routine now cr).1 ≡ false = try-taken now cr ∙ stays in
          let rs' = set rs p (try_routine now cr).0 in
          let same = pass-Same now rs p cr here stays in
          let (first, effect, after) = scan_queue_lem ps rs' in
          rw (here, scan_queue, first_runnable)
            (rw (passed, stays)
              (
                first ∙ first_runnable-cong rs rs' ps same,
                λ q. Effect-trans rs rs' _ _ q (pass-Kept now rs p cr here stays q) (effect q),
                λ e q. after e q ∙ same q,
              ))
    ]
  ]

  scan_from_lem :
      (i : ℕ) (queues : List (List ℕ)) (rs : List Croutine)
      → Scanned rs (in_order i queues) (scan_from now i queues rs)
  unfolding scan_from in_order
  scan_from_lem zero queues rs = scan_queue_lem [] rs
  scan_from_lem (suc i) queues rs =
      let queue = get_or queues i [] in
      let (first, effect, after) = scan_queue_lem queue rs in
      let append = first_runnable-append rs queue (in_order i queues) in
      elim (Option-cases (scan_queue now queue rs).1) [
        | inl none_here ↦
            let rs' = (scan_queue now queue rs).0 in
            let same = after none_here in
            let (first', effect', after') = scan_from_lem i queues rs' in
            rw (none_here, scan_from)
              (
                first' ∙ first_runnable-cong rs rs' _ same ∙ sym (append.1 (sym first ∙ none_here)),
                λ q. elim (effect q) [
                  | inl (e, t) ↦ absurd cc
                  | inr (ne, k) ↦ Effect-trans rs rs' _ _ q k (effect' q)
                ],
                λ e q. after' e q ∙ same q,
              )
        | inr (p, found) ↦
            rw (found, scan_from)
              (
                sym (append.0 p (sym first ∙ found)),
                λ q. subst (λ f. Effect rs (scan_queue now queue rs).0 f q) found (effect q),
                λ e. cc,
              )
      ]

-- `NextRoutine` of a context that is not stopped returns, of the routines in the queues of its group
-- from priority 19 down, the first that nobody holds and whose state comes out ready, or null if there
-- is none. That routine is held and ready afterwards; any other has its lock and its state as before.
pub next_routine_lem :
    (now : ℕ) (c : ClassicContext) (s : Shared)
    → c.stopped ≡ false
    → ((next_routine now c s).1
        ≡ first_runnable now s.routines (in_order max_prio (queues_of c.current_grp s)))
      × ((q : ℕ) → Effect s.routines (next_routine now c s).0.routines (next_routine now c s).1 q)
unfolding next_routine
next_routine_lem now c s runs =
    let (first, effect, after) =
      scan_from_lem now max_prio (queues_of c.current_grp s) s.routines in
    rw runs (first, effect)
