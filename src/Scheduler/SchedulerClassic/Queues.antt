-- ===== src/Scheduler/SchedulerClassic/Queues.antt =====
-- The queues of the groups under the writes of the scheduler.
use cmw.Prelude.{
  Distinct, ℕ, zero, suc, ◌≡◌, ◌≢◌, ◌<◌, refl, sym, ap, ◌∙◌, ◌⊎◌, inl, inr, ◌&&◌, List, [], ◌∷◌,
  ◌++◌, some, arith, ◌==◌, if◌then◌else◌, get_elem?, get_or, set, length, length-set, In, In-split,
  Bool-cases, Option-cases, subst,
}
use native.Mathlib.Decide.{ℕ_discrete}
use cmw.Prelude.Assoc.{Text, text_eq, text_beq, text_beq_iff, lookup-insert}
use cmw.Croutine.{Croutine}
use cmw.Scheduler.ClassicContext.{Shared, queues_of, put_queue, take_out, kept_first}

abbrev pub queue_at : Text → ℕ → Shared → List ℕ
queue_at group prio s = get_or (queues_of group s) prio []

-- Every group has its 20 queues.
abbrev pub IsSized : Shared → Type 0
IsSized s = (group : Text) → length (queues_of group s) ≡ 20

get_or-set :
    {A : Type 0} (xs : List A) (i j : ℕ) (v d : A)
    → i < length xs
    → get_or (set xs i v) j d ≡ (if i == j then v else get_or xs j d)
get_or-set [] i j v d lt = absurd (omega arith)
get_or-set (x ∷ xs) zero zero v d lt = refl
get_or-set (x ∷ xs) zero (suc j) v d lt = ground arith
get_or-set (x ∷ xs) (suc i) zero v d lt = ground arith
get_or-set (x ∷ xs) (suc i) (suc j) v d lt =
    let e : (suc i == suc j) ≡ (i == j) = ground arith in rw e (get_or-set xs i j v d (omega arith))

pub get_elem?-get_or :
    {A : Type 0} (xs : List A) (i : ℕ) (d : A)
    → i < length xs
    → get_elem? xs i ≡ some (get_or xs i d)
get_elem?-get_or [] i d lt = absurd (omega arith)
get_elem?-get_or (x ∷ xs) zero d lt = refl
get_elem?-get_or (x ∷ xs) (suc i) d lt = get_elem?-get_or xs i d (omega arith)

pub queues_of-put :
    (group other : Text) (prio : ℕ) (queue : List ℕ) (s : Shared)
    → queues_of other (put_queue group prio queue s)
      ≡ (if text_beq group other then set (queues_of group s) prio queue else queues_of other s)
unfolding put_queue queues_of
queues_of-put group other prio queue s =
    ground (arith, lookup-insert group other (set (queues_of group s) prio queue) s.cr_group)

module _ (group : Text) (prio : ℕ) (queue : List ℕ) (s : Shared) (sized : IsSized s) where
  pub put-IsSized : IsSized (put_queue group prio queue s)
  put-IsSized other = ground (
    arith,
    queues_of-put group other prio queue s,
    sized group,
    sized other,
    length-set (queues_of group s) prio queue,
  )

  pub queue_at-put :
      (other : Text) (i : ℕ)
      → prio < 20
      → queue_at other i (put_queue group prio queue s)
        ≡ (if text_beq group other && (prio == i) then queue else queue_at other i s)
  queue_at-put other i lt = elim (Bool-cases (text_beq group other)) [
    | inl same ↦
        rw (queues_of-put group other prio queue s, same)
          (get_or-set (queues_of group s) prio i queue [] (rw (sized group) lt)
            ∙ ap (λ q. if prio == i then queue else q)
                (ap (λ g. queue_at g i s) ((text_beq_iff group other).0 same)))
    | inr different ↦ rw (queues_of-put group other prio queue s, different) refl
  ]

  -- A queue after the write is the one written or one that was there.
  pub put-here : prio < 20 → queue_at group prio (put_queue group prio queue s) ≡ queue
  put-here lt = ground (arith, queue_at-put group prio lt, text_beq_iff group group)

  pub put-other :
      (other : Text) (i : ℕ)
      → prio < 20
      → ¬ ((group ≡ other) × (prio ≡ i))
      → queue_at other i (put_queue group prio queue s) ≡ queue_at other i s
  put-other other i lt ne = ground (arith, queue_at-put other i lt, text_beq_iff group other)

  pub put-cases :
      (other : Text) (i : ℕ) → ((group ≡ other) × (prio ≡ i)) ⊎ (¬ ((group ≡ other) × (prio ≡ i)))
  put-cases other i = elim (Bool-cases (text_beq group other && (prio == i))) [
    | inl e ↦ inl (ground (arith, text_beq_iff group other))
    | inr e ↦ inr (λ h. ground (arith, text_beq_iff group other))
  ]

pub Distinct-snoc : (xs : List ℕ) (p : ℕ) → Distinct xs → ¬ In p xs → Distinct (xs ++ p ∷ [])
Distinct-snoc [] p d out = (λ h. h, tt)
Distinct-snoc (x ∷ xs) p d out = (
  λ h. elim (In-split x xs (p ∷ []) h) [
    | inl l ↦ d.0 l
    | inr (inl e) ↦ out (inl (sym e))
    | inr (inr r) ↦ r
  ],
  Distinct-snoc xs p d.1 (λ h. out (inr h)),
)

-- The search of a removal finds the one routine with the id, and leaves the others.
pub record TakenOut (p : ℕ) (queue rest : List ℕ) : Type 0 where
  pub distinct : Distinct rest
  pub others : (q : ℕ) → In q rest → In q queue × (q ≢ p)
  pub kept : (q : ℕ) → In q queue → q ≢ p → In q rest

module _ (id : ℕ) (routines : List Croutine) where
  take_out-here :
      (x : ℕ) (xs : List ℕ) (cr : Croutine)
      → get_elem? routines x ≡ some cr
      → cr.id ≡ id
      → take_out id routines (x ∷ xs) ≡ some (x, cr, xs)
  unfolding take_out
  take_out-here x xs cr here e = ground arith

  take_out-later :
      (x : ℕ) (xs : List ℕ)
      → ((other : Croutine) → get_elem? routines x ≡ some other → other.id ≢ id)
      → take_out id routines (x ∷ xs) ≡ kept_first x (take_out id routines xs)
  unfolding take_out
  take_out-later x xs differs = elim (Option-cases (get_elem? routines x)) [
    | inl out ↦ rw (out, take_out) refl
    | inr (other, at_x) ↦ let ne = differs other at_x in ground arith
  ]

  pub take_out_lem :
      (p : ℕ) (cr : Croutine) (queue : List ℕ)
      → get_elem? routines p ≡ some cr
      → cr.id ≡ id
      → In p queue
      → Distinct queue
      → ((q : ℕ) (other : Croutine)
          → In q queue
          → get_elem? routines q ≡ some other
          → other.id ≡ id
          → q ≡ p)
      → (rest : List ℕ) × (take_out id routines queue ≡ some (p, cr, rest)) × TakenOut p queue rest
  take_out_lem p cr [] here e h d only = absurd h
  take_out_lem p cr (x ∷ xs) here e h d only = elim (ℕ_discrete x p) [
    | yes same ↦ (
      xs,
      take_out-here x xs cr (ap (get_elem? routines) same ∙ here) e
          ∙ ap (λ y. some (y, cr, xs)) same,
      record {
        distinct = d.1;
        others = λ q l. (inr l, λ eq. d.0 (subst (λ y. In y xs) (eq ∙ sym same) l));
        kept = λ q l ne. elim l [ inl first ↦ absurd (ne (first ∙ same)) | inr later ↦ later ];
      },
    )
    | no differs ↦
        let later : In p xs = elim h [ inl first ↦ absurd (differs (sym first)) | inr l ↦ l ] in
        let (rest, found, t) =
          take_out_lem p cr xs here e later d.1 (λ q other l. only q other (inr l)) in
        (
          x ∷ rest,
          take_out-later x xs (λ other at_x eq. differs (only x other (inl refl) at_x eq))
              ∙ ap (kept_first x) found,
          record {
            distinct = (λ l. d.0 (t.others x l).0, t.distinct);
            others = λ q l. elim l [
              | inl first ↦ (inl first, λ eq. differs (sym first ∙ eq))
              | inr r ↦ (inr (t.others q r).0, (t.others q r).1)
            ];
            kept = λ q l ne. elim l [ inl first ↦ inl first | inr r ↦ inr (t.kept q r ne) ];
          },
        )
  ]
