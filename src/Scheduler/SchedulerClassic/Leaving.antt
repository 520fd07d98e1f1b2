-- ===== src/Scheduler/SchedulerClassic/Leaving.antt =====
-- A routine that leaves its queue and the map of ids.
use cmw.Prelude.{
  Distinct, ℕ, ◌≡◌, ◌≢◌, ◌<◌, sym, ap, ◌∙◌, inl, inr, List, Option, none, some, arith, In, subst,
}
use native.Mathlib.Decide.{ℕ_discrete}
use cmw.Prelude.Assoc.{Text, nat_eq, text_eq, lookup, erase, lookup-erase}
use cmw.Scheduler.ClassicContext.{Shared, put_queue}
use cmw.Scheduler.SchedulerClassic.Queues.{
  queue_at, put-IsSized, put-here, put-other, put-cases, TakenOut,
}
use cmw.Scheduler.SchedulerClassic.Registered.{Ident, ident_at, placed, Registered}

abbrev ident_or : Ident → Option Ident → Ident
ident_or d none = d
ident_or d (some x) = x

pub placed-inj :
    (x y : Ident) → some x ≡ some y → (x.id ≡ y.id) × (x.group ≡ y.group) × (x.prio ≡ y.prio)
placed-inj x y e = (
  ap (λ o. (ident_or x o).id) e,
  ap (λ o. (ident_or x o).group) e,
  ap (λ o. (ident_or x o).prio) e,
)

module _ (s : Shared) (ids : List (ℕ × ℕ)) (r : Registered s ids) (id p : ℕ) (g : Text) (i : ℕ)
    (rest : List ℕ) where
  abbrev pub left : Shared
  left = put_queue g i rest s

  module _ (mine : lookup id ids ≡ some p) (there : ident_at s.routines p ≡ some (placed id g i))
      (lt : i < 20) (t : TakenOut p (queue_at g i s) rest) where
    queue_left : queue_at g i left ≡ rest
    queue_left = put-here g i rest s r.sized lt

    queue_kept : (h : Text) (j : ℕ) → ¬ ((g ≡ h) × (i ≡ j)) → queue_at h j left ≡ queue_at h j s
    queue_kept h j ne = put-other g i rest s r.sized h j lt ne

    still : (k q : ℕ) → q ≢ p → lookup k ids ≡ some q → lookup k (erase id ids) ≡ some q
    still k q ne e = elim (ℕ_discrete id k) [
      | yes same ↦
          absurd (ne (let e' : lookup id ids ≡ some q = ap (λ x. lookup x ids) same ∙ e in cc))
      | no other ↦ ground (arith, lookup-erase id k ids)
    ]

    before : (k q : ℕ) → lookup k (erase id ids) ≡ some q → (k ≢ id) × (lookup k ids ≡ some q)
    before k q e = ground (arith, lookup-erase id k ids)

    abbrev Entry : Text → ℕ → Type 0
    Entry h j =
        (q : ℕ)
        → In q (queue_at h j left)
        → (k : ℕ) × (ident_at s.routines q ≡ some (placed k h j))
          × (lookup k (erase id ids) ≡ some q)

    listed_here : Entry g i
    listed_here q inside =
        let (was, ne) = t.others q (subst (λ l. In q l) queue_left inside) in
        let (k, at_q, e) = r.listed g i q was in (k, at_q, still k q ne e)

    same_place :
        (k q : ℕ) (h : Text) (j : ℕ)
        → ident_at s.routines q ≡ some (placed k h j)
        → q ≡ p
        → (id ≡ k) × (g ≡ h) × (i ≡ j)
    same_place k q h j at_q same =
        placed-inj (placed id g i) (placed k h j)
          (sym there ∙ ap (ident_at s.routines) (sym same) ∙ at_q)

    listed_other : (h : Text) (j : ℕ) → ¬ ((g ≡ h) × (i ≡ j)) → Entry h j
    listed_other h j ne q inside =
        let (k, at_q, e) = r.listed h j q (subst (λ l. In q l) (queue_kept h j ne) inside) in
        (
          k,
          at_q,
          still k q
              (λ same. ne ((same_place k q h j at_q same).1, (same_place k q h j at_q same).2)) e,
        )

    stays_in : (h : Text) (j q : ℕ) → q ≢ p → In q (queue_at h j s) → In q (queue_at h j left)
    stays_in h j q ne inside = elim (put-cases g i rest s r.sized h j) [
      | inl (eg, ei) ↦
          let was : In q (queue_at g i s) =
            subst (λ x. In q (queue_at x i s)) (sym eg)
              (subst (λ y. In q (queue_at h y s)) (sym ei) inside) in
          subst (λ x. In q (queue_at x j left)) eg
            (subst (λ y. In q (queue_at g y left)) ei
              (subst (λ l. In q l) (sym queue_left) (t.kept q was ne)))
      | inr other ↦ subst (λ l. In q l) (sym (queue_kept h j other)) inside
    ]

    left-listed : (h : Text) (j : ℕ) → Entry h j
    left-listed h j = elim (put-cases g i rest s r.sized h j) [
      | inl (eg, ei) ↦ subst (λ x. Entry x j) eg (subst (λ y. Entry g y) ei listed_here)
      | inr ne ↦ listed_other h j ne
    ]

    left-found :
        (k q : ℕ)
        → lookup k (erase id ids) ≡ some q
        → (h : Text) × (j : ℕ) × (j < 20)
          × (ident_at s.routines q ≡ some (placed k h j))
          × In q (queue_at h j left)
    left-found k q e =
        let (differs, was) = before k q e in
        let (h, j, below, at_q, inside) = r.found k q was in
        let ne : q ≢ p = λ same. differs (sym (same_place k q h j at_q same).0) in
        (h, j, below, at_q, stays_in h j q ne inside)

    left-once : (h : Text) (j : ℕ) → Distinct (queue_at h j left)
    left-once h j = elim (put-cases g i rest s r.sized h j) [
      | inl (eg, ei) ↦
          subst (λ x. Distinct (queue_at x j left)) eg
            (subst (λ y. Distinct (queue_at g y left)) ei (rw queue_left t.distinct))
      | inr ne ↦ rw (queue_kept h j ne) (r.once h j)
    ]

    pub leave-Registered : Registered left (erase id ids)
    unfolding put_queue
    leave-Registered = record {
      sized = put-IsSized g i rest s r.sized;
      found = left-found;
      listed = left-listed;
      once = left-once;
    }
