-- ===== src/Base/BoundedQueue/Runs.antt =====
-- Any sequence of calls on a queue, against the list.
use cmw.Prelude.{
  ℕ, ◌+◌, ◌^◌, ◌<◌, ◌≡◌, refl, Bool, true, false, List, [], ◌∷◌, ◌++◌, Option, none, some, ltb,
  if◌then◌else◌, arith, length, ◌>>=◌, Bool-cases, inl, inr,
}
use cmw.Base.BoundedQueue.{BoundedQueue, Taken, empty, taken, init, enqueue, dequeue, size}
use cmw.Base.BoundedQueue.Fifo.{
  Holds, enqueue-eq, pushed, pushed-Holds, dequeue-nil, dequeue-cons, popped-Holds, size_lem,
  init-Holds,
}

pub data Call (T : Type 0) : Type 0 where
  enqueues : T → Call T
  dequeues : Call T
  sizes : Call T

pub data Answer (T : Type 0) : Type 0 where
  enqueued : Bool → Answer T
  dequeued : Taken T → Answer T
  counted : ℕ → Answer T

module _ {T : Type 0} where
  -- What the calls answer; `none` is a call that does not return.
  unfoldable pub answers : List (Call T) → BoundedQueue T → Option (List (Answer T))
  answers [] b = some []
  answers (enqueues x ∷ calls) b = elim (enqueue b x) [
    | none ↦ none
    | some (done, b') ↦ (answers calls b' >>= λ r. some (enqueued done ∷ r))
  ]
  answers (dequeues ∷ calls) b =
      let (t, b') = dequeue b in (answers calls b' >>= λ r. some (dequeued t ∷ r))
  answers (sizes ∷ calls) b = (answers calls b >>= λ r. some (counted (size b) ∷ r))

  -- What they answer on a list of at most `bound` elements
  unfoldable pub list_answers : ℕ → List (Call T) → List T → List (Answer T)
  list_answers bound [] q = []
  list_answers bound (enqueues x ∷ calls) q =
      let more = list_answers bound calls (q ++ x ∷ []) in
      let same = list_answers bound calls q in
      if ltb (length q) bound then enqueued true ∷ more else enqueued false ∷ same
  list_answers bound (dequeues ∷ calls) [] = dequeued empty ∷ list_answers bound calls []
  list_answers bound (dequeues ∷ calls) (x ∷ q) = dequeued (taken x) ∷ list_answers bound calls q
  list_answers bound (sizes ∷ calls) q = counted (length q) ∷ list_answers bound calls q

  answers_lem :
      (bound : ℕ) (calls : List (Call T)) (b : BoundedQueue T) (q : List T)
      → Holds b bound q
      → b.tail + length calls < 2 ^ 64
      → answers calls b ≡ some (list_answers bound calls q)
  unfolding answers list_answers
  answers_lem bound [] b q w lt = refl
  answers_lem bound (enqueues x ∷ calls) b q w lt =
      let room : b.tail + 1 < 2 ^ 64 = omega arith in
      elim (Bool-cases (ltb (length q) bound)) [
        | inl part ↦
            let rest =
              answers_lem bound calls (pushed b bound q w x room) (q ++ x ∷ [])
                (pushed-Holds b bound q w x room (ground arith)) (unfold pushed in omega arith) in
            rw (enqueue-eq b bound q w x room, answers) (rw (part, rest))
        | inr all ↦
            let rest = answers_lem bound calls b q w (omega arith) in
            rw (enqueue-eq b bound q w x room, answers) (rw (all, rest))
      ]
  answers_lem bound (dequeues ∷ calls) b [] w lt =
      rw (dequeue-nil b bound w, answers_lem bound calls b [] w (omega arith))
  answers_lem bound (dequeues ∷ calls) b (x ∷ q) w lt =
      let rest =
        answers_lem bound calls (record b { head = b.head + 1 }) q (popped-Holds b bound x q w)
          (omega arith) in
      rw (dequeue-cons b bound x q w, rest)
  answers_lem bound (sizes ∷ calls) b q w lt =
      rw (size_lem b bound q w, answers_lem bound calls b q w (omega arith))

  -- Any sequence of calls of `Enqueue`, `Dequeue` and `Size` on a new queue, one after the other, returns, and
  -- answers as a first-in-first-out list of at most `bound` elements does, whatever the cells held at
  -- first, as long as bound + 2 and the number of calls + 1 stay below 2^64.
  pub fifo_lem :
      (bound : ℕ) (null : T) (calls : List (Call T))
      → bound + 2 < 2 ^ 64
      → 1 + length calls < 2 ^ 64
      → answers calls (init bound null) ≡ some (list_answers bound calls [])
  fifo_lem bound null calls small few =
      answers_lem bound calls (init bound null) [] (init-Holds bound null small)
        (unfold init in few)
