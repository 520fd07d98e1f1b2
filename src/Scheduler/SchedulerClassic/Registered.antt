-- ===== src/Scheduler/SchedulerClassic/Registered.antt =====
-- The tasks that are registered are those in the queues, each in the one queue of its group and priority.
use cmw.Prelude.{
  Distinct, ℕ, ◌≡◌, ◌≢◌, ◌<◌, refl, sym, ap, ◌∙◌, inl, inr, List, [], ◌∷◌, ◌++◌, Option, none, some,
  arith, get_elem?, get_or, set, length, In, In-split, In-left, In-right, subst, get_elem?-set_self,
  get_elem?-set_ne, get_elem?-some-lt,
}
use native.Mathlib.Decide.{ℕ_discrete}
use cmw.Prelude.Assoc.{Text, nat_eq, text_eq, lookup, insert, lookup-insert}
use cmw.Croutine.{Croutine}
use cmw.Scheduler.ClassicContext.{Shared, queues_of, put_queue}
use cmw.Scheduler.SchedulerClassic.Queues.{
  queue_at, IsSized, put-IsSized, put-here, put-other, put-cases, Distinct-snoc,
}

-- What says where a routine belongs
pub record Ident : Type 0 where
  pub id : ℕ
  pub group : Text
  pub prio : ℕ

abbrev pub ident_of : Croutine → Ident
ident_of cr = record { id = cr.id; group = cr.group_name; prio = cr.priority }

abbrev pub some_ident : Option Croutine → Option Ident
some_ident none = none
some_ident (some cr) = some (ident_of cr)

abbrev pub ident_at : List Croutine → ℕ → Option Ident
ident_at routines p = some_ident (get_elem? routines p)

abbrev pub placed : ℕ → Text → ℕ → Ident
placed id group prio = record { id = id; group = group; prio = prio }

pub record Registered (s : Shared) (ids : List (ℕ × ℕ)) : Type 0 where
  pub sized : IsSized s
  pub found :
      (id p : ℕ)
      → lookup id ids ≡ some p
      → (g : Text) × (i : ℕ) × (i < 20)
        × (ident_at s.routines p ≡ some (placed id g i))
        × In p (queue_at g i s)
  pub listed :
      (g : Text) (i p : ℕ)
      → In p (queue_at g i s)
      → (id : ℕ) × (ident_at s.routines p ≡ some (placed id g i)) × (lookup id ids ≡ some p)
  pub once : (g : Text) (i : ℕ) → Distinct (queue_at g i s)

-- What leaves the queues alone and every routine where it belongs keeps it.
pub Registered-frame :
    (s s' : Shared) (ids : List (ℕ × ℕ))
    → ((g : Text) → queues_of g s' ≡ queues_of g s)
    → ((p : ℕ) (x : Ident) → ident_at s.routines p ≡ some x → ident_at s'.routines p ≡ some x)
    → Registered s ids
    → Registered s' ids
Registered-frame s s' ids same keeps r = record {
  sized = λ g. ap length (same g) ∙ r.sized g;
  found = λ id p e.
      let (g, i, lt, at_p, inside) = r.found id p e in
      (g, i, lt, keeps p _ at_p, subst (λ q. In p (get_or q i [])) (sym (same g)) inside);
  listed = λ g i p inside.
      let (id, at_p, e) = r.listed g i p (subst (λ q. In p (get_or q i [])) (same g) inside) in
      (id, keeps p _ at_p, e);
  once = λ g i. subst (λ q. Distinct (get_or q i [])) (sym (same g)) (r.once g i);
}

ident_at-set :
    (rs : List Croutine) (p q : ℕ) (cr : Croutine)
    → p ≢ q
    → ident_at (set rs p cr) q ≡ ident_at rs q
ident_at-set rs p q cr ne = ap some_ident (get_elem?-set_ne rs cr ne)

-- A write of a routine that stays where it belongs
pub ident_at-write :
    (rs : List Croutine) (p : ℕ) (old cr : Croutine)
    → get_elem? rs p ≡ some old
    → ident_of cr ≡ ident_of old
    → (q : ℕ) → ident_at (set rs p cr) q ≡ ident_at rs q
ident_at-write rs p old cr here same q = elim (ℕ_discrete p q) [
  | yes e ↦
      ap (ident_at (set rs p cr)) (sym e)
      ∙ ap some_ident (get_elem?-set_self rs p cr (get_elem?-some-lt rs p old here))
      ∙ ap some same
      ∙ sym (ap some_ident here)
      ∙ ap (ident_at rs) e
  | no ne ↦ ident_at-set rs p q cr ne
]

module _ (s : Shared) (ids : List (ℕ × ℕ)) (p : ℕ) (old cr : Croutine) (r : Registered s ids)
    (here : get_elem? s.routines p ≡ some old) where
  at_p : ident_at s.routines p ≡ some (ident_of old)
  at_p = ap some_ident here

  written : ident_at (set s.routines p cr) p ≡ some (ident_of cr)
  written =
      ap some_ident (get_elem?-set_self s.routines p cr (get_elem?-some-lt s.routines p old here))

  abbrev moved : Shared
  moved = record s { routines = set s.routines p cr }

  moved-IsSized : IsSized moved
  unfolding queues_of
  moved-IsSized = r.sized

  abbrev queue : List ℕ
  queue = queue_at cr.group_name cr.priority s ++ p ∷ []

  abbrev pub enqueued : Shared
  enqueued = put_queue cr.group_name cr.priority queue moved

  module _ (new : lookup old.id ids ≡ none) where
    absent : (g : Text) (i : ℕ) → ¬ In p (queue_at g i s)
    absent g i inside =
        let (id, there, e) = r.listed g i p inside in
        let same : id ≡ old.id = cc in
        let found : lookup old.id ids ≡ some p = ap (λ k. lookup k ids) (sym same) ∙ e in cc

    unmoved :
        (g : Text) (i q : ℕ)
        → In q (queue_at g i s)
        → ident_at (set s.routines p cr) q ≡ ident_at s.routines q
    unmoved g i q inside =
        ident_at-set s.routines p q cr
          (λ e. absent g i (subst (λ x. In x (queue_at g i s)) (sym e) inside))

    module _ (same_id : cr.id ≡ old.id) (lt : cr.priority < 20) where
      old_queue :
          (g : Text) (i : ℕ)
          → ¬ ((cr.group_name ≡ g) × (cr.priority ≡ i))
          → queue_at g i enqueued ≡ queue_at g i s
      unfolding queues_of
      old_queue g i ne = put-other cr.group_name cr.priority queue moved moved-IsSized g i lt ne

      new_queue : queue_at cr.group_name cr.priority enqueued ≡ queue
      new_queue = put-here cr.group_name cr.priority queue moved moved-IsSized lt

      lookup-new : lookup old.id (insert old.id p ids) ≡ some p
      lookup-new = ground (arith, lookup-insert old.id old.id p ids)

      lookup-kept : (id q : ℕ) → lookup id ids ≡ some q → lookup id (insert old.id p ids) ≡ some q
      lookup-kept id q e = elim (ℕ_discrete old.id id) [
        | yes same ↦
            let none_there : lookup id ids ≡ none = ap (λ k. lookup k ids) (sym same) ∙ new in cc
        | no ne ↦ ground (arith, lookup-insert old.id id p ids)
      ]

      abbrev Entry : Text → ℕ → Type 0
      Entry g i =
          (q : ℕ)
          → In q (queue_at g i enqueued)
          → (id : ℕ) × (ident_at (set s.routines p cr) q ≡ some (placed id g i))
            × (lookup id (insert old.id p ids) ≡ some q)

      listed_before :
          (g : Text) (i q : ℕ)
          → In q (queue_at g i s)
          → (id : ℕ) × (ident_at (set s.routines p cr) q ≡ some (placed id g i))
            × (lookup id (insert old.id p ids) ≡ some q)
      listed_before g i q inside =
          let (id, there, e) = r.listed g i q inside in
          (id, unmoved g i q inside ∙ there, lookup-kept id q e)

      listed_here : Entry cr.group_name cr.priority
      listed_here q inside =
          elim (In-split q (queue_at cr.group_name cr.priority s) (p ∷ [])
            (subst (λ l. In q l) new_queue inside)) [
              | inl before ↦ listed_before _ _ q before
              | inr (inl e) ↦ (
                old.id,
                ap (ident_at (set s.routines p cr)) e
                    ∙ written
                    ∙ ap (λ k. some (placed k cr.group_name cr.priority)) same_id,
                lookup-new ∙ ap some (sym e),
              )
              | inr (inr h) ↦ absurd h
            ]

      enqueued-listed : (g : Text) (i : ℕ) → Entry g i
      enqueued-listed g i =
          elim (put-cases cr.group_name cr.priority queue moved moved-IsSized g i) [
            | inl (eg, ei) ↦
                subst (λ h. Entry h i) eg (subst (λ j. Entry cr.group_name j) ei listed_here)
            | inr ne ↦
                λ q inside. listed_before g i q (subst (λ l. In q l) (old_queue g i ne) inside)
          ]

      stays_in : (g : Text) (i q : ℕ) → In q (queue_at g i s) → In q (queue_at g i enqueued)
      stays_in g i q inside =
          elim (put-cases cr.group_name cr.priority queue moved moved-IsSized g i) [
            | inl (eg, ei) ↦
                let there : In q (queue_at cr.group_name cr.priority s) =
                  subst (λ h. In q (queue_at h cr.priority s)) (sym eg)
                    (subst (λ j. In q (queue_at g j s)) (sym ei) inside) in
                subst (λ h. In q (queue_at h i enqueued)) eg
                  (subst (λ j. In q (queue_at cr.group_name j enqueued)) ei
                    (subst (λ l. In q l) (sym new_queue) (In-left q _ (p ∷ []) there)))
            | inr ne ↦ subst (λ l. In q l) (sym (old_queue g i ne)) inside
          ]

      pub at_end : In p (queue_at cr.group_name cr.priority enqueued)
      at_end =
          subst (λ l. In p l) (sym new_queue)
            (In-right p (queue_at cr.group_name cr.priority s) (p ∷ []) (inl refl))

      enqueued-found :
          (id q : ℕ)
          → lookup id (insert old.id p ids) ≡ some q
          → (g : Text) × (i : ℕ) × (i < 20)
            × (ident_at (set s.routines p cr) q ≡ some (placed id g i))
            × In q (queue_at g i enqueued)
      enqueued-found id q e = elim (ℕ_discrete old.id id) [
        | yes same ↦
            let is_p : p ≡ q = cc (lookup-new, ap (λ k. lookup k (insert old.id p ids)) same) in
            (
              cr.group_name,
              cr.priority,
              lt,
              ap (ident_at (set s.routines p cr)) (sym is_p)
                  ∙ written
                  ∙ ap (λ k. some (placed k cr.group_name cr.priority)) (same_id ∙ same),
              subst (λ x. In x (queue_at cr.group_name cr.priority enqueued)) is_p at_end,
            )
        | no ne ↦
            let before : lookup id ids ≡ some q = ground (arith, lookup-insert old.id id p ids) in
            let (g, i, below, there, inside) = r.found id q before in
            (g, i, below, unmoved g i q inside ∙ there, stays_in g i q inside)
      ]

      enqueued-once : (g : Text) (i : ℕ) → Distinct (queue_at g i enqueued)
      enqueued-once g i = elim (put-cases cr.group_name cr.priority queue moved moved-IsSized g i) [
        | inl (eg, ei) ↦
            subst (λ h. Distinct (queue_at h i enqueued)) eg
              (subst (λ j. Distinct (queue_at cr.group_name j enqueued)) ei
                (rw new_queue (Distinct-snoc _ p (r.once _ _) (absent _ _))))
        | inr ne ↦ rw (old_queue g i ne) (r.once g i)
      ]

      pub enqueue-Registered : Registered enqueued (insert old.id p ids)
      unfolding put_queue
      enqueue-Registered = record {
        sized = put-IsSized cr.group_name cr.priority queue moved moved-IsSized;
        found = enqueued-found;
        listed = enqueued-listed;
        once = enqueued-once;
      }
