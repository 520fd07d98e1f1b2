-- ===== src/Base/AtomicRwLock/Exclusion.antt =====
-- Readers and writers are kept apart, and the count of waiting writers is that of the threads that wait.
use cmw.Prelude.{
  ℕ, zero, suc, ◌+◌, ◌^◌, ◌≤◌, ◌<◌, ◌≡◌, refl, sym, ap, inl, inr, Bool, false, not, ◌&&◌, List, [],
  ◌∷◌, arith, get_elem?, set, All, All-at, All-set, Option-cases, Bool-cases, pos, is_negative,
  int_eq, length, length-set, replicate, length-replicate, total, total-set, total-replicate,
  total-at, total-le, Held,
}
use cmw.Base.AtomicRwLock.{
  AtomicRwLock, Pc, idle, loading, reading, claiming, claimed, writing, checking, swapping, Choice,
  act, Threads, step, run, must_wait, read_swap, write_swap, announce, withdraw, read_unlock,
  write_unlock, new,
}

abbrev reads : Pc → ℕ
reads reading = 1
reads idle = 0
reads loading = 0
reads claiming = 0
reads claimed = 0
reads writing = 0
reads (checking n) = 0
reads (swapping n) = 0

abbrev writes : Pc → ℕ
writes claimed = 1
writes writing = 1
writes idle = 0
writes loading = 0
writes reading = 0
writes claiming = 0
writes (checking n) = 0
writes (swapping n) = 0

abbrev waits : Pc → ℕ
waits claiming = 1
waits claimed = 1
waits writing = 0
waits idle = 0
waits loading = 0
waits reading = 0
waits (checking n) = 0
waits (swapping n) = 0

-- A value that is about to be swapped was loaded while nobody wrote.
abbrev Seen : Pc → Type 0
Seen (swapping n) = is_negative n ≡ false
Seen idle = Unit
Seen loading = Unit
Seen reading = Unit
Seen claiming = Unit
Seen claimed = Unit
Seen writing = Unit
Seen (checking n) = Unit

abbrev pub readers : List Pc → ℕ
readers = total reads

abbrev pub writers : List Pc → ℕ
writers = total writes

abbrev pub waiting : List Pc → ℕ
waiting = total waits

pub record IsExclusive (t : Threads) : Type 0 where
  pub held : Held t.lock.lock_num (readers t.pcs) (writers t.pcs)
  pub counted : t.lock.write_lock_wait_num ≡ waiting t.pcs
  pub seen : All Seen t.pcs
  pub few : length t.pcs < 2 ^ 31

module _ (c : Choice) (l : AtomicRwLock) (r w r' w' : ℕ) where
  act-Held :
      (p : Pc)
      → Held l.lock_num r w
      → Seen p
      → r' < 2 ^ 31
      → r' + reads p ≡ r + reads (act c p l).0
      → w' + writes p ≡ w + writes (act c p l).0
      → Held (act c p l).1.lock_num r' w'
  unfolding act must_wait read_swap write_swap announce withdraw read_unlock write_unlock
  act-Held idle h s few er ew = ground arith
  act-Held loading h s few er ew = ground arith
  act-Held reading h s few er ew = ground arith
  act-Held claiming h s few er ew = ground arith
  act-Held claimed h s few er ew = ground arith
  act-Held writing h s few er ew = ground arith
  act-Held (checking n) h s few er ew = ground arith
  act-Held (swapping n) h s few er ew = ground arith

module _ (c : Choice) (l : AtomicRwLock) (k : ℕ) where
  act-counted :
      (p : Pc)
      → waits p ≤ l.write_lock_wait_num
      → k < 2 ^ 32
      → k + waits p ≡ l.write_lock_wait_num + waits (act c p l).0
      → (act c p l).1.write_lock_wait_num ≡ k
  unfolding act must_wait read_swap write_swap announce withdraw read_unlock write_unlock
  act-counted idle le lt e = ground arith
  act-counted loading le lt e = ground arith
  act-counted reading le lt e = ground arith
  act-counted claiming le lt e = ground arith
  act-counted claimed le lt e = ground arith
  act-counted writing le lt e = ground arith
  act-counted (checking n) le lt e = ground arith
  act-counted (swapping n) le lt e = ground arith

act-Seen : (c : Choice) (l : AtomicRwLock) (p : Pc) → Seen (act c p l).0
unfolding act must_wait read_swap write_swap
act-Seen c l idle = elim (Bool-cases c.wants_write) [ inl w ↦ rw w tt | inr r ↦ rw r tt ]
act-Seen c l loading = tt
act-Seen c l reading = tt
act-Seen c l claiming = elim (Bool-cases (not c.spurious && int_eq l.lock_num (pos 0))) [
  | inl won ↦ rw won tt
  | inr lost ↦ rw lost tt
]
act-Seen c l claimed = tt
act-Seen c l writing = tt
act-Seen c l (checking n) = elim (Bool-cases (must_wait l n)) [
  | inl wait ↦ unfold must_wait in rw wait tt
  | inr pass ↦ let free : is_negative n ≡ false = ground arith in rw pass free
]
act-Seen c l (swapping n) = elim (Bool-cases (not c.spurious && int_eq l.lock_num n)) [
  | inl won ↦ rw won tt
  | inr lost ↦ rw lost tt
]

reads-le-1 : (p : Pc) → reads p ≤ 1
reads-le-1 p = ground arith

waits-le-1 : (p : Pc) → waits p ≤ 1
waits-le-1 p = ground arith

step-IsExclusive : (t : Threads) (e : ℕ × Choice) → IsExclusive t → IsExclusive (step t e)
unfolding step
step-IsExclusive t (i, c) x = elim (Option-cases (get_elem? t.pcs i)) [
  | inl out ↦ rw (out, step) x
  | inr (p, here) ↦
      let p' = (act c p t.lock).0 in
      let few' : length (set t.pcs i p') < 2 ^ 31 = rw (length-set t.pcs i p') x.few in
      rw (here, step)
        (record {
          held =
              act-Held c t.lock (readers t.pcs) (writers t.pcs) _ _ p x.held
                (All-at Seen t.pcs i p here x.seen)
                (omega (arith, total-le reads (set t.pcs i p') reads-le-1, few'))
                (total-set reads t.pcs i p p' here) (total-set writes t.pcs i p p' here);
          counted =
              act-counted c t.lock (waiting (set t.pcs i p')) p
                (omega (arith, x.counted, total-at waits t.pcs i p here))
                (omega (arith, total-le waits (set t.pcs i p') waits-le-1, few'))
                (omega (arith, x.counted, total-set waits t.pcs i p p' here));
          seen = All-set Seen t.pcs i p' (act-Seen c t.lock p) x.seen;
          few = few';
        })
]

-- Every schedule keeps the invariant.
pub run-IsExclusive :
    (t : Threads) (es : List (ℕ × Choice)) → IsExclusive t → IsExclusive (run t es)
unfolding run
run-IsExclusive t [] x = x
run-IsExclusive t (e ∷ es) x = run-IsExclusive (step t e) es (step-IsExclusive t e x)

-- All threads outside of a new lock.
abbrev pub unused : Bool → ℕ → Threads
unused write_first n = record { lock = new write_first; pcs = replicate n idle }

All-Seen : (k : ℕ) → All Seen (replicate k idle)
All-Seen zero = tt
All-Seen (suc k) = (tt, All-Seen k)

unused-IsExclusive : (write_first : Bool) (n : ℕ) → n < 2 ^ 31 → IsExclusive (unused write_first n)
unused-IsExclusive write_first n lt = record {
  held = inl (total-replicate writes idle n refl, ap pos (sym (total-replicate reads idle n refl)));
  counted = sym (total-replicate waits idle n refl);
  seen = All-Seen n;
  few = rw (length-replicate n idle) lt;
}

-- Of fewer than 2^31 threads that start outside a new lock, under any schedule and with any spurious
-- failures, either none writes and `lock_num_` is the number of readers, or one writes, none reads and
-- `lock_num_` is -1; and `write_lock_wait_num_` is the number of writers that wait.
pub run_rw_lock :
    (write_first : Bool) (n : ℕ) (es : List (ℕ × Choice))
    → n < 2 ^ 31
    → (let t = run (unused write_first n) es in
        Held t.lock.lock_num (readers t.pcs) (writers t.pcs)
        × (t.lock.write_lock_wait_num ≡ waiting t.pcs))
run_rw_lock write_first n es lt =
    let x = run-IsExclusive (unused write_first n) es (unused-IsExclusive write_first n lt) in
    (x.held, x.counted)
