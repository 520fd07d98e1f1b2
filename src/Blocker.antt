-- ===== src/Blocker.antt =====
-- blocker/blocker.h: the messages of a channel inside of a process, the newest first, and the callbacks
-- of its subscribers. A call holds its mutexes throughout; the guards are left out.
pub mod Trim
pub mod Calls
pub mod Newest
pub mod BlockerManager
use cmw.Prelude.{
  ℕ, zero, suc, Bool, true, false, List, [], ◌∷◌, Option, none, some, ◌==◌, ltb, if◌then◌else◌,
  length,
}
use cmw.Prelude.Assoc.{Text, text_eq, lookup, insert, erase}

-- `S` is the state that the callbacks work on: it is outside of the blocker.
pub record Blocker (M S : Type 0) : Type 0 where
  pub capacity : ℕ
  pub channel_name : Text
  pub observed : List M
  pub published : List M
  pub callbacks : List (Text × (M → S → S))
  pub dummy : M

abbrev pub default_capacity : ℕ
default_capacity = 10

module _ {A : Type 0} where
  -- `std::list`: the last element and the list without it
  abbrev pub last : List A → Option A
  last [] = none
  last (x ∷ []) = some x
  last (x ∷ y ∷ xs) = last (y ∷ xs)

  abbrev pub pop_back : List A → List A
  pop_back [] = []
  pop_back (x ∷ []) = []
  pop_back (x ∷ y ∷ xs) = x ∷ pop_back (y ∷ xs)

  abbrev pub first : List A → Option A
  first [] = none
  first (x ∷ xs) = some x

  abbrev pub is_nil : List A → Bool
  is_nil [] = true
  is_nil (x ∷ xs) = false

  -- The loop that drops messages from the back, on fuel
  unfoldable pub trim : ℕ → (capacity : ℕ) → List A → List A
  trim zero capacity queue = queue
  trim (suc fuel) capacity queue =
      let rest = trim fuel capacity (pop_back queue) in
      if ltb capacity (length queue) then rest else queue

module _ {M S : Type 0} where
  abbrev pub new : (capacity : ℕ) → Text → M → Blocker M S
  new capacity channel dummy = record {
    capacity = capacity;
    channel_name = channel;
    observed = [];
    published = [];
    callbacks = [];
    dummy = dummy;
  }

  unfoldable pub enqueue : M → Blocker M S → Blocker M S
  unfolding trim
  enqueue msg b =
      let queue = msg ∷ b.published in
      if b.capacity == 0 then b else record b { published = trim (length queue) b.capacity queue }

  -- The loop of `Notify`
  unfoldable pub call_all : List (Text × (M → S → S)) → M → S → S
  call_all [] msg s = s
  call_all ((id, callback) ∷ rest) msg s = call_all rest msg (callback msg s)

  unfoldable pub publish : M → Blocker M S → S → Blocker M S × S
  unfolding enqueue call_all
  publish msg b s = let b' = enqueue msg b in (b', call_all b'.callbacks msg s)

  unfoldable pub reset : Blocker M S → Blocker M S
  reset b = record b { observed = []; published = []; callbacks = [] }

  unfoldable pub clear_observed : Blocker M S → Blocker M S
  clear_observed b = record b { observed = [] }

  unfoldable pub clear_published : Blocker M S → Blocker M S
  clear_published b = record b { published = [] }

  unfoldable pub observe : Blocker M S → Blocker M S
  observe b = record b { observed = b.published }

  unfoldable pub is_observed_empty : Blocker M S → Bool
  is_observed_empty b = is_nil b.observed

  unfoldable pub is_published_empty : Blocker M S → Bool
  is_published_empty b = is_nil b.published

  -- `Subscribe` and `Unsubscribe`, for what the id has
  unfoldable pub subscribe_to :
      Option (M → S → S) → Text → (M → S → S) → Blocker M S → Blocker M S × Bool
  subscribe_to (some other) callback_id callback b = (b, false)
  subscribe_to none callback_id callback b =
      (record b { callbacks = insert callback_id callback b.callbacks }, true)

  unfoldable pub subscribe : Text → (M → S → S) → Blocker M S → Blocker M S × Bool
  unfolding subscribe_to
  subscribe callback_id callback b =
      subscribe_to (lookup callback_id b.callbacks) callback_id callback b

  unfoldable pub unsubscribe_from : Option (M → S → S) → Text → Blocker M S → Blocker M S × Bool
  unsubscribe_from (some other) callback_id b =
      (record b { callbacks = erase callback_id b.callbacks }, true)
  unsubscribe_from none callback_id b = (b, false)

  unfoldable pub unsubscribe : Text → Blocker M S → Blocker M S × Bool
  unfolding unsubscribe_from
  unsubscribe callback_id b = unsubscribe_from (lookup callback_id b.callbacks) callback_id b

  unfoldable pub get_latest_observed : Blocker M S → M
  get_latest_observed b = elim b.observed [ [] ↦ b.dummy | m ∷ ms ↦ m ]

  unfoldable pub get_latest_observed_ptr : Blocker M S → Option M
  get_latest_observed_ptr b = first b.observed

  unfoldable pub get_oldest_observed_ptr : Blocker M S → Option M
  get_oldest_observed_ptr b = last b.observed

  unfoldable pub get_latest_published_ptr : Blocker M S → Option M
  get_latest_published_ptr b = first b.published

  unfoldable pub set_capacity : ℕ → Blocker M S → Blocker M S
  unfolding trim
  set_capacity capacity b = record b {
    capacity = capacity;
    published = trim (length b.published) capacity b.published;
  }
