-- ===== src/Shm/Block/Exclusion.antt =====
-- Under any interleaving of threads the lock keeps readers and writers apart, and a reader's attempt
-- ends.
use cmw.Prelude.{
  ℕ, zero, suc, ◌+◌, ◌-◌, ◌*◌, ◌^◌, ◌≤◌, ◌<◌, ◌≡◌, refl, sym, ap, ◌⊎◌, inl, inr, Bool, false, not,
  ◌&&◌, List, [], ◌∷◌, arith, ◌==◌, get_elem?, All, All-at, All-set, Option-cases, Bool-cases, ℤ,
  pos, is_negative, int_eq, length, replicate, set, length-set, length-replicate, total-le, total,
  total-set, total-replicate, Held,
}
use cmw.Shm.Block.{
  Pc, idle, reading, writing, loading, trying, Choice, act, Threads, step, run, load_step, cas_step,
  try_lock_for_write, enter,
}

abbrev reads : Pc → ℕ
reads reading = 1
reads idle = 0
reads writing = 0
reads (loading k) = 0
reads (trying n k) = 0

abbrev writes : Pc → ℕ
writes writing = 1
writes idle = 0
writes reading = 0
writes (loading k) = 0
writes (trying n k) = 0

-- A value that is about to be swapped was loaded while nobody wrote.
abbrev Seen : Pc → Type 0
Seen (trying n k) = is_negative n ≡ false
Seen idle = Unit
Seen reading = Unit
Seen writing = Unit
Seen (loading k) = Unit

abbrev pub readers : List Pc → ℕ
readers = total reads

abbrev pub writers : List Pc → ℕ
writers = total writes

pub record IsExclusive (t : Threads) : Type 0 where
  pub held : Held t.lock (readers t.pcs) (writers t.pcs)
  pub seen : All Seen t.pcs
  pub few : length t.pcs < 2 ^ 31

module _ (c : Choice) (l : ℤ) (r w r' w' : ℕ) where
  act-Held :
      (p : Pc)
      → Held l r w
      → Seen p
      → r' < 2 ^ 31
      → r' + reads p ≡ r + reads (act c p l).0
      → w' + writes p ≡ w + writes (act c p l).0
      → Held (act c p l).1 r' w'
  unfolding act
  act-Held idle h s few er ew = ground arith
  act-Held reading h s few er ew = ground arith
  act-Held writing h s few er ew = ground arith
  act-Held (loading k) h s few er ew = ground arith
  act-Held (trying n k) h s few er ew = ground arith

reads-le-1 : (p : Pc) → reads p ≤ 1
reads-le-1 p = ground arith

cas-Seen : (spurious : Bool) (l n : ℤ) (k : ℕ) → Seen (cas_step spurious l n k).0
unfolding cas_step
cas-Seen spurious l n k = elim (Bool-cases (not spurious && int_eq l n)) [
  | inl won ↦ rw won tt
  | inr lost ↦
      rw lost (elim (Bool-cases (k + 1 == 5)) [ inl last ↦ rw last tt | inr more ↦ rw more tt ])
]

enter-Seen : (c : Choice) (l : ℤ) → Seen (enter c l).0
unfolding enter
enter-Seen c l = elim (Bool-cases c.wants_write) [
  | inl w ↦ rw w (elim (Bool-cases (try_lock_for_write c.spurious l).0) [
    | inl won ↦ rw won tt
    | inr lost ↦ rw lost tt
  ])
  | inr r ↦ rw r tt
]

act-Seen : (c : Choice) (l : ℤ) (p : Pc) → Seen (act c p l).0
unfolding act
act-Seen c l idle = enter-Seen c l
act-Seen c l reading = tt
act-Seen c l writing = tt
act-Seen c l (loading k) = elim (Bool-cases (is_negative l)) [
  | inl e ↦ unfold load_step in rw e tt
  | inr e ↦ unfold load_step in rw e e
]
act-Seen c l (trying n k) = cas-Seen c.spurious l n k

step-IsExclusive : (t : Threads) (e : ℕ × Choice) → IsExclusive t → IsExclusive (step t e)
unfolding step
step-IsExclusive t (i, c) x = elim (Option-cases (get_elem? t.pcs i)) [
  | inl out ↦ rw (out, step) x
  | inr (p, here) ↦
      let p' = (act c p t.lock).0 in
      let few' : length (set t.pcs i p') < 2 ^ 31 = rw (length-set t.pcs i p') x.few in
      rw (here, step)
        (record {
          held =
              act-Held c t.lock (readers t.pcs) (writers t.pcs) _ _ p x.held
                (All-at Seen t.pcs i p here x.seen)
                (omega (arith, total-le reads (set t.pcs i p') reads-le-1, few'))
                (total-set reads t.pcs i p p' here) (total-set writes t.pcs i p p' here);
          seen = All-set Seen t.pcs i p' (act-Seen c t.lock p) x.seen;
          few = few';
        })
]

-- Every schedule keeps the invariant.
pub run-IsExclusive :
    (t : Threads) (es : List (ℕ × Choice)) → IsExclusive t → IsExclusive (run t es)
unfolding run
run-IsExclusive t [] x = x
run-IsExclusive t (e ∷ es) x = run-IsExclusive (step t e) es (step-IsExclusive t e x)

-- All threads outside of a free block.
abbrev pub unused : ℕ → Threads
unused n = record { lock = pos 0; pcs = replicate n idle }

All-Seen : (k : ℕ) → All Seen (replicate k idle)
All-Seen zero = tt
All-Seen (suc k) = (tt, All-Seen k)

unused-IsExclusive : (n : ℕ) → n < 2 ^ 31 → IsExclusive (unused n)
unused-IsExclusive n lt = record {
  held = inl (total-replicate writes idle n refl, ap pos (sym (total-replicate reads idle n refl)));
  seen = All-Seen n;
  few = rw (length-replicate n idle) lt;
}

-- Of fewer than 2^31 threads that start outside a free block, under any schedule and with any spurious
-- failures, either none writes and the lock is the number of readers, or one writes, none reads and
-- the lock is -1.
pub run_exclusion :
    (n : ℕ) (es : List (ℕ × Choice))
    → n < 2 ^ 31
    → Held
        (run (unused n) es).lock
        (readers (run (unused n) es).pcs)
        (writers (run (unused n) es).pcs)
run_exclusion n es lt = (run-IsExclusive (unused n) es (unused-IsExclusive n lt)).held

-- How many atomic steps an attempt to read can still take.
abbrev left : Pc → ℕ
left idle = 0
left reading = 0
left writing = 0
left (loading k) = 2 * (5 - k)
left (trying n k) = 2 * (5 - k) - 1

-- A reader's attempt, whatever it finds at each of its steps: what is in the lock, and how a swap
-- fares. It stops when the attempt is over.
unfoldable pub attempt : Pc → List (ℤ × Choice) → Pc
attempt p [] = p
attempt idle (e ∷ es) = idle
attempt reading (e ∷ es) = reading
attempt writing (e ∷ es) = writing
attempt (loading k) ((l, c) ∷ es) = attempt (act c (loading k) l).0 es
attempt (trying n k) ((l, c) ∷ es) = attempt (act c (trying n k) l).0 es

abbrev InTries : Pc → Type 0
InTries (loading k) = k < 5
InTries (trying n k) = k < 5
InTries idle = Unit
InTries reading = Unit
InTries writing = ⊥

module _ (c : Choice) (l : ℤ) (k : ℕ) (lt : k < 5) where
  load-left : InTries (load_step l k) × (left (load_step l k) < 2 * (5 - k))
  unfolding load_step
  load-left = elim (Bool-cases (is_negative l)) [
    | inl e ↦ rw e (tt, omega arith)
    | inr e ↦ rw e (lt, omega arith)
  ]

  cas-left :
      (n : ℤ)
      → InTries (cas_step c.spurious l n k).0
        × (left (cas_step c.spurious l n k).0 < 2 * (5 - k) - 1)
  unfolding cas_step
  cas-left n = elim (Bool-cases (not c.spurious && int_eq l n)) [
    | inl won ↦ rw won (tt, omega arith)
    | inr lost ↦ rw lost (elim (Bool-cases (k + 1 == 5)) [
      | inl last ↦ rw last (tt, omega arith)
      | inr more ↦ let below : k + 1 < 5 = ground arith in rw more (below, omega arith)
    ])
  ]

attempt-over :
    (p : Pc) (es : List (ℤ × Choice))
    → InTries p
    → left p ≤ length es
    → (attempt p es ≡ idle) ⊎ (attempt p es ≡ reading)
unfolding attempt act
attempt-over idle [] h le = inl refl
attempt-over reading [] h le = inr refl
attempt-over writing [] h le = absurd h
attempt-over (loading k) [] h le = absurd (omega arith)
attempt-over (trying n k) [] h le = absurd (omega arith)
attempt-over idle (e ∷ es) h le = inl refl
attempt-over reading (e ∷ es) h le = inr refl
attempt-over writing (e ∷ es) h le = absurd h
attempt-over (loading k) ((l, c) ∷ es) h le =
    attempt-over (load_step l k) es (load-left c l k h).0 (omega (arith, (load-left c l k h).1))
attempt-over (trying n k) ((l, c) ∷ es) h le =
    attempt-over (cas_step c.spurious l n k).0 es (cas-left c l k h n).0
      (omega (arith, (cas-left c l k h n).1))

-- An attempt to read is over after ten atomic steps at most, with the lock or without, whatever other
-- threads do to the lock meanwhile.
pub attempt_ends :
    (es : List (ℤ × Choice))
    → 10 ≤ length es
    → (attempt (loading 0) es ≡ idle) ⊎ (attempt (loading 0) es ≡ reading)
attempt_ends es le = attempt-over (loading 0) es (omega arith) (omega arith)
