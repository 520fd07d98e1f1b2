-- ===== src/Blocker/BlockerManager.antt =====
-- blocker/blocker_manager.h and blocker/blocker_manager.cpp: the blockers of the channels by name. A
-- blocker is made for one type of message, `tag`; a cast to the blocker of another type gives null.
pub mod Channels
use cmw.Prelude.{[], ℕ, Bool, true, false, List, Option, none, some, map, ◌==◌, if◌then◌else◌}
use cmw.Prelude.Assoc.{Text, text_eq, lookup, insert}
use cmw.Blocker.{Blocker, new, default_capacity}
use cmw.Blocker

pub record Typed (M S : Type 0) : Type 0 where
  pub tag : ℕ
  pub blocker : Blocker M S

-- `blockers_`
abbrev pub BlockerMap : Type 0 → Type 0 → Type 0
BlockerMap M S = List (Text × Typed M S)

module _ {M S : Type 0} where
  -- `std::dynamic_pointer_cast`
  abbrev pub cast : ℕ → Typed M S → Option (Blocker M S)
  cast tag t = if t.tag == tag then some t.blocker else none

  unfoldable pub get_blocker : ℕ → Text → BlockerMap M S → Option (Blocker M S)
  get_blocker tag channel m = elim (lookup channel m) [ none ↦ none | some t ↦ cast tag t ]

  -- `GetOrCreateBlocker` of a capacity and a name, for what the name has
  unfoldable pub get_or_create :
      Option (Typed M S)
      → ℕ
      → (capacity : ℕ) → Text
      → M
      → BlockerMap M S
      → Option (Blocker M S) × BlockerMap M S
  get_or_create (some t) tag capacity channel dummy m = (cast tag t, m)
  get_or_create none tag capacity channel dummy m =
      let b = new capacity channel dummy in
      (some b, insert channel (record { tag = tag; blocker = b }) m)

  unfoldable pub get_or_create_blocker :
      ℕ → (capacity : ℕ) → Text → M → BlockerMap M S → Option (Blocker M S) × BlockerMap M S
  unfolding get_or_create
  get_or_create_blocker tag capacity channel dummy m =
      get_or_create (lookup channel m) tag capacity channel dummy m

  -- The blocker found is shared with the map, so what a call does to it shows there.
  abbrev pub write_back : ℕ → Text → Blocker M S → BlockerMap M S → BlockerMap M S
  write_back tag channel b m = insert channel (record { tag = tag; blocker = b }) m

  unfoldable pub publish_to :
      Option (Blocker M S) × BlockerMap M S → ℕ → Text → M → S → BlockerMap M S × S × Bool
  publish_to (none, m) tag channel msg s = (m, s, false)
  publish_to (some b, m) tag channel msg s =
      let (b', s') = Blocker.publish msg b s in (write_back tag channel b' m, s', true)

  unfoldable pub publish : ℕ → Text → M → M → BlockerMap M S → S → BlockerMap M S × S × Bool
  unfolding publish_to get_or_create_blocker
  publish tag channel dummy msg m s =
      publish_to (get_or_create_blocker tag default_capacity channel dummy m) tag channel msg s

  -- `Subscribe` of the blocker found, or made with the capacity
  unfoldable pub subscribe_to :
      Option (Blocker M S) × BlockerMap M S → ℕ → Text → Text → (M → S → S) → BlockerMap M S × Bool
  subscribe_to (none, m) tag channel callback_id callback = (m, false)
  subscribe_to (some b, m) tag channel callback_id callback =
      let (b', done) = Blocker.subscribe callback_id callback b in
      (write_back tag channel b' m, done)

  unfoldable pub subscribe :
      ℕ → Text → (capacity : ℕ) → M → Text → (M → S → S) → BlockerMap M S → BlockerMap M S × Bool
  unfolding subscribe_to get_or_create_blocker
  subscribe tag channel capacity dummy callback_id callback m =
      subscribe_to (get_or_create_blocker tag capacity channel dummy m) tag channel callback_id
        callback

  unfoldable pub unsubscribe_from :
      Option (Blocker M S) → ℕ → Text → Text → BlockerMap M S → BlockerMap M S × Bool
  unsubscribe_from none tag channel callback_id m = (m, false)
  unsubscribe_from (some b) tag channel callback_id m =
      let (b', done) = Blocker.unsubscribe callback_id b in (write_back tag channel b' m, done)

  unfoldable pub unsubscribe : ℕ → Text → Text → BlockerMap M S → BlockerMap M S × Bool
  unfolding unsubscribe_from get_blocker
  unsubscribe tag channel callback_id m =
      unsubscribe_from (get_blocker tag channel m) tag channel callback_id m

  unfoldable pub observe : BlockerMap M S → BlockerMap M S
  observe m = map (λ e. (e.0, record e.1 { blocker = Blocker.observe e.1.blocker })) m

  -- `Reset`: the blockers are reset and forgotten.
  unfoldable pub reset : BlockerMap M S → BlockerMap M S
  reset m = []
