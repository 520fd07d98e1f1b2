-- ===== src/Tests/Blocker.antt =====
-- Blockers at concrete calls.
use cmw.Prelude.{ℕ, ◌≡◌, ◌≤◌, refl, List, [], ◌∷◌, some, ◌==◌, if◌then◌else◌, take}
use cmw.Prelude.Assoc.{text_eq, text_beq, lookup, insert, erase}
use cmw.Blocker.{new, default_capacity, enqueue, trim, call_all, subscribe_to, unsubscribe_from}
use cmw.Blocker
use cmw.Blocker.Calls.{
  Call, publishes, subscribes, unsubscribes, sets_capacity, observes, step, run, view_run,
}
use cmw.Blocker.Newest.{unread, run_newest}
use cmw.Blocker.BlockerManager.{BlockerMap, publish}
use cmw.Blocker.BlockerManager.Channels.{found_or_made, made, publish_lem}

abbrev calls : List (Call ℕ)
calls =
    publishes 1
    ∷ subscribes (5 ∷ [])
    ∷ publishes 2
    ∷ publishes 3
    ∷ observes
    ∷ sets_capacity 1
    ∷ unsubscribes (5 ∷ [])
    ∷ publishes 4
    ∷ []

run_newest_example :
    (let (b, notes) = run calls (new 2 (9 ∷ []) 0, []) in
      let v = view_run calls (unread 2) in
      (b.published ≡ take v.kept v.history)
      × (v.kept ≤ b.capacity)
      × (b.observed ≡ v.observed)
      × (notes ≡ v.told))
run_newest_example = run_newest 2 (9 ∷ []) 0 calls

run_newest_runs : (run calls (new 2 (9 ∷ []) 0, [])).0.published ≡ 4 ∷ []
unfolding run step Blocker.publish Blocker.subscribe Blocker.unsubscribe Blocker.set_capacity
    Blocker.observe enqueue trim call_all subscribe_to unsubscribe_from lookup insert erase
run_newest_runs = refl

-- A channel whose blocker is for messages of type 2
abbrev blockers : BlockerMap ℕ (List ℕ)
blockers = (9 ∷ [], made 2 10 (9 ∷ []) 0) ∷ []

publish_lem_example :
    (let t = found_or_made (lookup (8 ∷ []) blockers) 1 default_capacity (8 ∷ []) 0 in
      let (b', s') = Blocker.publish 3 t.blocker [] in
      let (m', s'', done) = publish 1 (8 ∷ []) 0 3 blockers [] in
      (done ≡ (t.tag == 1))
      × (s'' ≡ (if t.tag == 1 then s' else []))
      × (lookup (9 ∷ []) m' ≡ (
          if (t.tag == 1)
          then (if text_beq (8 ∷ []) (9 ∷ [])
              then some (record { tag = 1; blocker = b' })
              else lookup (9 ∷ []) blockers)
          else lookup (9 ∷ []) blockers)))
publish_lem_example = publish_lem 1 (8 ∷ []) 0 3 blockers [] (9 ∷ [])
