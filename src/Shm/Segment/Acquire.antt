-- ===== src/Shm/Segment/Acquire.antt =====
-- The writer's search for a free block ends, and what it takes.
use cmw.Prelude.{
  ◌≢◌, ◌⊎◌, List, [], ◌∷◌, ◌++◌, replicate, get_elem?-some-lt, ℕ, zero, suc, ◌+◌, ◌-◌, ◌*◌, ◌/◌,
  ◌%◌, ◌^◌, ◌<◌, ◌≡◌, refl, sym, ap, ◌∙◌, inl, inr, true, false, some, arith, get_elem?, set,
  length, drop_at, add32, All, ℤ, pos, negsuc, Option-cases, Bool-cases, int_eq,
}
use native.Mathlib.Nat.{mod-lt, mod-eq_of_lt, div-add-mod, mod-add-mod, add-mul-mod_self_left}
use native.Mathlib.Decide.{dec_lt}
use cmw.Shm.State.{State, fetch_add_seq}
use cmw.Shm.Conf.{ShmConf}
use cmw.Shm.Block.{Block, try_lock_for_write, rw_lock_free, write_exclusive}
use cmw.Shm.Segment.{
  Turn, Search, took, looking, out_of_range, disturbed, Segment, get_next_writable_block_index,
}

-- A sequence number that wraps still goes round the blocks in turn.
wrap-mod : (x n q : ℕ) → 2 ^ 32 ≡ n * q → 0 < n → (x % 2 ^ 32) % n ≡ x % n
wrap-mod x n q e positive =
    sym (add-mul-mod_self_left (x % 2 ^ 32) n (q * (x / 2 ^ 32)))
    ∙ ap (λ k. k % n) (sym split ∙ div-add-mod x (2 ^ 32))
  where
    split : 2 ^ 32 * (x / 2 ^ 32) + x % 2 ^ 32 ≡ x % 2 ^ 32 + n * (q * (x / 2 ^ 32))
    split = ap (λ k. k * (x / 2 ^ 32) + x % 2 ^ 32) e ∙ omega arith

-- The search took block `index`, which was free, and changed nothing but its lock and the sequence
-- number.
pub record Took (s : Segment) (index : ℕ) (s' : Segment) : Type 0 where
  pub block : Block
  pub was : get_elem? s.blocks index ≡ some block
  pub free : block.lock_num ≡ rw_lock_free
  pub now : s'.blocks ≡ set s.blocks index (record block { lock_num = write_exclusive })
  pub conf : s'.conf ≡ s.conf
  pub addrs : s'.block_buf_addrs ≡ s.block_buf_addrs

free_of_eq : (l : ℤ) → int_eq l rw_lock_free ≡ true → l ≡ rw_lock_free
free_of_eq (pos n) e = ground arith
free_of_eq (negsuc n) e = cc

abbrev bumped : Segment → Segment
bumped s = record s { state = record (s.state) { seq = add32 s.state.seq 1 } }

-- A turn at which nobody else does anything and the compare-and-swap does not fail for no reason
abbrev pub quiet : Turn
quiet = record { before = λ m. m; between = λ m. m; spurious = false }

module _ (ts : List Turn) (s : Segment) (b : Block) where
  abbrev here : ℕ
  here = s.state.seq % s.conf.block_num

  search-won :
      get_elem? s.blocks here ≡ some b
      → b.lock_num ≡ rw_lock_free
      → get_next_writable_block_index (quiet ∷ ts) s
        ≡ took here (record (bumped s) {
          blocks = set s.blocks here (record b { lock_num = write_exclusive });
        })
  unfolding get_next_writable_block_index fetch_add_seq try_lock_for_write
  search-won e free = ground arith

  search-lost :
      get_elem? s.blocks here ≡ some b
      → int_eq b.lock_num rw_lock_free ≡ false
      → get_next_writable_block_index (quiet ∷ ts) s ≡ get_next_writable_block_index ts (bumped s)
  unfolding get_next_writable_block_index fetch_add_seq try_lock_for_write
  search-lost e held = ground arith

  won :
      get_elem? s.blocks here ≡ some b
      → b.lock_num ≡ rw_lock_free
      → (i : ℕ) × (s' : Segment) × (get_next_writable_block_index (quiet ∷ ts) s ≡ took i s')
        × Took s i s'
  won e free = (
    here,
    _,
    search-won e free,
    record { block = b; was = e; free = free; now = refl; conf = refl; addrs = refl },
  )

module _ (n q : ℕ) (rounds : 2 ^ 32 ≡ n * q) (some_block : 0 < n) (target : Block) (j : ℕ) where
  round_on : (seq d : ℕ) → (add32 seq 1 + d) % n ≡ (seq + suc d) % n
  round_on seq d =
      sym (mod-add-mod (add32 seq 1) n d)
      ∙ ap (λ k. (k + d) % n) (wrap-mod (seq + 1) n q rounds some_block)
      ∙ mod-add-mod (seq + 1) n d
      ∙ ap (λ k. k % n) (omega arith)

  -- How far on a block stands from the block of the sequence number.
  distance : (seq : ℕ) → j < n → (d : ℕ) × (d < n) × ((seq + d) % n ≡ j)
  distance seq lt = elim (dec_lt j (seq % n)) [
    | yes before ↦
        let low : seq % n < n = mod-lt seq some_block in
        (
          j + n - seq % n,
          omega arith,
          sym (mod-add-mod seq n (j + n - seq % n))
              ∙ ap (λ k. k % n) (omega arith)
              ∙ add-mul-mod_self_left j n 1
              ∙ mod-eq_of_lt lt,
        )
    | no after ↦
        let reach : seq % n + (j - seq % n) ≡ j = omega arith in
        (
          j - seq % n,
          omega arith,
          sym (mod-add-mod seq n (j - seq % n)) ∙ ap (λ k. k % n) reach ∙ mod-eq_of_lt lt,
        )
  ]

  search :
      (d f : ℕ) (s : Segment)
      → s.conf.block_num ≡ n
      → length s.blocks ≡ n
      → get_elem? s.blocks j ≡ some target
      → target.lock_num ≡ rw_lock_free
      → (s.state.seq + d) % n ≡ j
      → d < f
      → (i : ℕ) × (s' : Segment) × (get_next_writable_block_index (replicate f quiet) s ≡ took i s')
        × Took s i s'
  search d zero s num len at_j free near lt = absurd (omega arith)
  search zero (suc f) s num len at_j free near lt =
      let at_here : s.state.seq % s.conf.block_num ≡ j =
        ap (λ k. s.state.seq % k) num ∙ ap (λ k. k % n) (omega arith) ∙ near in
      won (replicate f quiet) s target (ap (get_elem? s.blocks) at_here ∙ at_j) free
  search (suc d) (suc f) s num len at_j free near lt =
      let i : ℕ = s.state.seq % s.conf.block_num in
      let in_blocks : i < length s.blocks = omega (arith, mod-lt s.state.seq some_block, num) in
      let (b, at_i, _) = drop_at s.blocks i in_blocks in
      elim (Bool-cases (int_eq b.lock_num rw_lock_free)) [
        | inl free_here ↦ won (replicate f quiet) s b at_i (free_of_eq b.lock_num free_here)
        | inr held ↦
            let (k, s', found, t) =
              search d f (bumped s) num len at_j free (round_on s.state.seq d ∙ near)
                (omega arith) in
            (
              k,
              s',
              search-lost (replicate f quiet) s b at_i held ∙ found,
              record {
                block = t.block;
                was = t.was;
                free = t.free;
                now = t.now;
                conf = t.conf;
                addrs = t.addrs;
              },
            )
      ]

-- A segment that is open, with as many blocks as its configuration says.
pub record IsOpen (s : Segment) : Type 0 where
  pub init : s.init ≡ true
  pub mapped : s.state.need_remap ≡ false
  pub blocks : length s.blocks ≡ s.conf.block_num
  pub some_block : 0 < s.conf.block_num
  pub whole_rounds : (2 ^ 32) % s.conf.block_num ≡ 0

-- The other processes do not change how many blocks there are.
abbrev pub Keeps : Turn → Type 0
Keeps t =
    ((m : State × List Block) → length (t.before m).1 ≡ length m.1)
    × ((m : State × List Block) → length (t.between m).1 ≡ length m.1)

-- The segment after the count of a turn, when its compare-and-swap comes
abbrev counted : Turn → Segment → Segment
counted t s = disturbed t.between (bumped (disturbed t.before s))

took-ended : (i : ℕ) (u s' : Segment) → took i u ≢ looking s'
took-ended i u s' e = cc

-- A turn ends the search, or it goes on from there.
turn-cases :
    (t : Turn) (s : Segment)
    → ((r : Search) × ((s' : Segment) → r ≢ looking s')
        × ((ts : List Turn) → get_next_writable_block_index (t ∷ ts) s ≡ r))
      ⊎ ((ts : List Turn)
          → get_next_writable_block_index (t ∷ ts) s
            ≡ get_next_writable_block_index ts (counted t s))
unfolding get_next_writable_block_index fetch_add_seq
turn-cases t s =
    let idx = (disturbed t.before s).state.seq % s.conf.block_num in
    elim (Option-cases (get_elem? (counted t s).blocks idx)) [
      | inl out ↦ inl (out_of_range, λ s' e. cc, λ ts. rw out refl)
      | inr (b, there) ↦ elim (Bool-cases (try_lock_for_write t.spurious b.lock_num).0) [
        | inl wins ↦ inl (
          took idx (record (counted t s) {
            blocks =
                set (counted t s).blocks idx
                  (record b { lock_num = (try_lock_for_write t.spurious b.lock_num).1 });
          }),
          took-ended idx _,
          λ ts. rw (there, wins) refl,
        )
        | inr lost ↦ inr (λ ts. rw (there, lost) refl)
      ]
    ]

-- A search that still looks has changed neither the configuration nor the number of the blocks.
looking-blocks :
    (ts : List Turn) (s s' : Segment)
    → All Keeps ts
    → get_next_writable_block_index ts s ≡ looking s'
    → (s'.conf ≡ s.conf) × (length s'.blocks ≡ length s.blocks)
looking-blocks [] s s' keeps e =
    let same : s ≡ s' = unfold get_next_writable_block_index in cc in
    (ap (λ (u : Segment). u.conf) (sym same), ap (λ (u : Segment). length u.blocks) (sym same))
looking-blocks (t ∷ ts) s s' (keep, keeps) e = elim (turn-cases t s) [
  | inl (r, ended, stops) ↦ absurd (ended s' (sym (stops ts) ∙ e))
  | inr on ↦
      let (conf, count) = looking-blocks ts (counted t s) s' keeps (sym (on ts) ∙ e) in
      (conf, count ∙ keep.1 _ ∙ keep.0 _)
]

-- Turns one after the other
search-append :
    (xs ys : List Turn) (s s' : Segment)
    → get_next_writable_block_index xs s ≡ looking s'
    → get_next_writable_block_index (xs ++ ys) s ≡ get_next_writable_block_index ys s'
search-append [] ys s s' e =
    let same : s ≡ s' = unfold get_next_writable_block_index in cc in
    ap (get_next_writable_block_index ys) same
search-append (t ∷ ts) ys s s' e = elim (turn-cases t s) [
  | inl (r, ended, stops) ↦ absurd (ended s' (sym (stops ts) ∙ e))
  | inr on ↦ on (ts ++ ys) ∙ search-append ts ys (counted t s) s' (sym (on ts) ∙ e)
]

-- A search in an open segment, whose compare-and-swaps may fail for no reason and between whose steps other
-- processes may do anything to the shared memory but change how many blocks there are: if it still looks
-- after some turns and some block is then free, then it ends within as many turns as there are blocks in
-- which nobody interferes and no compare-and-swap fails for no reason. It takes the lock of one block,
-- which was free, for writing, and no other block changes in these turns.
pub search_ends :
    (before : List Turn) (s s1 : Segment) (j : ℕ) (target : Block)
    → IsOpen s
    → All Keeps before
    → get_next_writable_block_index before s ≡ looking s1
    → get_elem? s1.blocks j ≡ some target
    → target.lock_num ≡ rw_lock_free
    → (i : ℕ) × (s' : Segment) × (get_next_writable_block_index
          (before ++ replicate s.conf.block_num quiet)
          s
        ≡ took i s')
      × Took s1 i s'
search_ends before s s1 j target o keeps still at_j free =
    let n = s.conf.block_num in
    let (conf, count) = looking-blocks before s s1 keeps still in
    let num : s1.conf.block_num ≡ n = ap (λ (c : ShmConf). c.block_num) conf in
    let lt : j < n = omega (arith, get_elem?-some-lt s1.blocks j target at_j, count, o.blocks) in
    let rounds : 2 ^ 32 ≡ n * (2 ^ 32 / n) =
      omega (arith, div-add-mod (2 ^ 32) n, o.whole_rounds) in
    let (d, near, at) = distance n (2 ^ 32 / n) rounds o.some_block target j s1.state.seq lt in
    let (i, s', found, t) =
      search n (2 ^ 32 / n) rounds o.some_block target j d n s1 num (count ∙ o.blocks) at_j free at
        near in
    (i, s', search-append before (replicate n quiet) s s1 still ∙ found, t)
