-- ===== src/Shm/Segment/Release.antt =====
-- Acquiring and releasing a block, on every branch.
use cmw.Prelude.{
  refl, [], replicate, ◌-◌, ◌^◌, ◌==◌, ℕ, suc, ◌≤◌, ◌<◌, ◌≡◌, sym, ap, ◌∙◌, Bool, true, false,
  Option, none, some, arith, get_elem?, set, length, pos, negsuc, leb, ltb, set-set, set_same,
  get_elem?-some-lt, get_elem?-set_self,
}
use cmw.Shm.Conf.{ShmConf, update, message_size_more}
use cmw.Shm.Conf.Sizes.{update-too_small}
use cmw.Shm.Block.{Block, rw_lock_free, write_exclusive, release_write_lock, release_read_lock}
use cmw.Shm.Segment.{
  written, get_next_writable_block_index, Segment, Backend, BlockRef, acquire_block_to_write,
  acquire_block_to_read, release_written_block, release_read_block, with_lock, opened, remapped,
  resized, recreate, take_for_read,
}
use cmw.Shm.Segment.Acquire.{quiet, Took, IsOpen, search_ends}

module _ {s : Segment} where
  -- An open segment goes through neither an opening nor a remapping.
  opened_lem : (f : Segment → Bool × Segment) (b : Backend) → IsOpen s → opened b f s ≡ (true, s)
  unfolding opened
  opened_lem f b o = rw o.init

  remapped_lem : (b : Backend) → IsOpen s → remapped b s ≡ (true, s)
  unfolding remapped
  remapped_lem b o = rw o.mapped

  resized_lem :
      (b : Backend) (msg_size : ℕ)
      → msg_size ≤ s.conf.ceiling_msg_size
      → resized b msg_size (true, s) ≡ (true, s)
  unfolding resized
  resized_lem b msg_size fits =
      let small : ltb s.conf.ceiling_msg_size msg_size ≡ false = ground arith in rw small

module _ (backend : Backend) (s : Segment) (o : IsOpen s) where
  -- In an open segment, a reader of a block with r readers, fewer than 2^31 - 1, and no writer gets it, with the address of its
  -- buffer, and its lock counts one more reader.
  acquire_read_lem :
      (i r : ℕ) (b : Block)
      → get_elem? s.blocks i ≡ some b
      → b.lock_num ≡ pos r
      → r < 2 ^ 31 - 1
      → acquire_block_to_read backend i s ≡ (
        some (record { index = i; buf = s.block_buf_addrs i }),
        record s { blocks = set s.blocks i (record b { lock_num = pos (suc r) }) },
      )
  unfolding acquire_block_to_read
  acquire_read_lem i r b at_i count few =
      let no_wrap : (r == 2 ^ 31 - 1) ≡ false = ground arith in
      let inside : leb s.conf.block_num i ≡ false =
        ground (arith, get_elem?-some-lt s.blocks i b at_i, o.blocks) in
      rw (opened_lem backend.open_only backend o, inside, remapped_lem backend o, at_i)
        (unfold take_for_read in rw (count, no_wrap))

  -- A reader of a block that is written gets nothing and changes nothing.
  pub acquire_read_refused :
      (i n : ℕ) (b : Block)
      → get_elem? s.blocks i ≡ some b
      → b.lock_num ≡ negsuc n
      → acquire_block_to_read backend i s ≡ (none, s)
  unfolding acquire_block_to_read
  acquire_read_refused i n b at_i count =
      let inside : leb s.conf.block_num i ≡ false =
        ground (arith, get_elem?-some-lt s.blocks i b at_i, o.blocks) in
      rw (opened_lem backend.open_only backend o, inside, remapped_lem backend o, at_i)
        (unfold take_for_read in rw count)

  -- A reader of a block out of range gets nothing and changes nothing.
  pub acquire_read_outside :
      (i : ℕ) → s.conf.block_num ≤ i → acquire_block_to_read backend i s ≡ (none, s)
  unfolding acquire_block_to_read
  acquire_read_outside i out =
      let outside : leb s.conf.block_num i ≡ true = ground arith in
      rw (opened_lem backend.open_only backend o, outside)

-- In an open segment, releasing the block that a writer's search took puts all blocks back as they were.
pub write_release :
    {s s' : Segment} {i : ℕ} (buf : Option ℕ)
    → IsOpen s
    → Took s i s'
    → (release_written_block s' (record { index = i; buf = buf })).blocks ≡ s.blocks
unfolding release_written_block release_write_lock
write_release {s} {s'} {i} buf o t =
    let inside : i < length s.blocks = get_elem?-some-lt s.blocks i t.block t.was in
    let kept : leb s'.conf.block_num i ≡ false = ground (arith, t.conf, o.blocks) in
    let locked : get_elem? s'.blocks i ≡ some (record (t.block) { lock_num = write_exclusive }) =
      ap (λ l. get_elem? l i) t.now ∙ get_elem?-set_self s.blocks i _ inside in
    rw (kept, locked, with_lock)
      (ap (λ l. set l i (record (t.block) { lock_num = rw_lock_free })) t.now
        ∙ set-set s.blocks i _ _
        ∙ ap (λ k. set s.blocks i (record (t.block) { lock_num = k })) (sym t.free)
        ∙ set_same s.blocks i t.block t.was)

-- In an open segment, releasing a block that had r readers when it was taken for reading puts all blocks
-- back as they were.
pub read_release :
    {s : Segment} (i r : ℕ) (b : Block) (buf : Option ℕ)
    → IsOpen s
    → get_elem? s.blocks i ≡ some b
    → b.lock_num ≡ pos r
    → (release_read_block
        (record s { blocks = set s.blocks i (record b { lock_num = pos (suc r) }) })
        (record { index = i; buf = buf })).blocks
      ≡ s.blocks
unfolding release_read_block release_read_lock
read_release {s} i r b buf o at_i count =
    let inside : i < length s.blocks = get_elem?-some-lt s.blocks i b at_i in
    let kept : leb s.conf.block_num i ≡ false = ground (arith, o.blocks) in
    let locked = get_elem?-set_self s.blocks i (record b { lock_num = pos (suc r) }) inside in
    rw (kept, locked, with_lock)
      (set-set s.blocks i _ _
        ∙ ap (λ k. set s.blocks i (record b { lock_num = k })) (sym count)
        ∙ set_same s.blocks i b at_i)

-- A message above 32 MiB, written to an open segment with blocks of 32 MiB or less: if making the segment
-- anew succeeds, keeps the configuration chosen for the message, and gives an open segment with a free
-- block, then the writer gets a block within as many undisturbed turns as there are blocks, and the blocks are smaller than the message.
pub oversized_write :
    (backend : Backend) (s : Segment) (msg_size j : ℕ) (target : Block)
    → IsOpen s
    → message_size_more < msg_size
    → s.conf.ceiling_msg_size ≤ message_size_more
    → (recreate backend s msg_size).0 ≡ true
    → (recreate backend s msg_size).1.conf ≡ update msg_size
    → IsOpen (recreate backend s msg_size).1
    → get_elem? (recreate backend s msg_size).1.blocks j ≡ some target
    → target.lock_num ≡ rw_lock_free
    → (ref : BlockRef) × (s' : Segment) × (acquire_block_to_write backend
          (replicate (recreate backend s msg_size).1.conf.block_num quiet)
          msg_size
          s
        ≡ some (some ref, s'))
      × (s'.conf.ceiling_msg_size < msg_size)
unfolding acquire_block_to_write written resized
oversized_write backend s msg_size j target o big low made conf open_new at_j free =
    let r = recreate backend s msg_size in
    let (i, s', found, t) =
      search_ends [] r.1 r.1 j target open_new tt (unfold get_next_writable_block_index in refl)
        at_j free in
    let larger : ltb s.conf.ceiling_msg_size msg_size ≡ true = ground arith in
    (
      record { index = i; buf = s'.block_buf_addrs i },
      s',
      rw (opened_lem backend.open_or_create backend o, remapped_lem backend o, larger, made, found),
      omega (
        arith,
        ap (λ (c : ShmConf). c.ceiling_msg_size) (t.conf ∙ conf),
        update-too_small msg_size big,
      ),
    )
