-- ===== src/Data/Dispatcher.antt =====
-- data/data_dispatcher.h and data/data_notifier.h: the buffers and the notifiers of the channels. The maps
-- hold pointers into a store of buffers and one of notifiers; a buffer that has expired, and a callback
-- that is not set, are `none`.

pub mod Delivery
use cmw.Prelude.{
  ℕ, ◌+◌, Bool, true, false, List, [], ◌∷◌, ◌++◌, Option, none, some, ◌>>=◌, if◌then◌else◌,
  get_elem?, set,
}
use cmw.Base.AtomicHashMap.{AtomicHashMap, get, put}
use cmw.Data.CacheBuffer.{CacheBuffer, fill}

-- What `AddBuffer` and `AddNotifier` do to the list that a channel has
unfoldable pub extended : ℕ → Option (List ℕ) → List ℕ
extended p none = p ∷ []
extended p (some ps) = ps ++ p ∷ []

-- `AddBuffer` and `AddNotifier`; `none` is an access outside the map's table.
unfoldable pub add : (channel_id p : ℕ) → AtomicHashMap (List ℕ) → Option (AtomicHashMap (List ℕ))
unfolding extended
add channel_id p m = get m channel_id >>= λ found. put m channel_id (extended p found)

module _ {S : Type 0} where
  -- The callback of a notifier, if it is set
  unfoldable pub called : Option (Option (S → S)) → S → S
  called none s = s
  called (some none) s = s
  called (some (some callback)) s = callback s

  unfoldable pub call_all : List ℕ → List (Option (S → S)) → S → S
  unfolding called
  call_all [] notifiers s = s
  call_all (p ∷ ps) notifiers s = call_all ps notifiers (called (get_elem? notifiers p) s)

  -- `DataNotifier::Notify`, for what the channel has
  unfoldable pub notify_found : Option (List ℕ) → List (Option (S → S)) → S → Bool × S
  unfolding call_all
  notify_found none notifiers s = (false, s)
  notify_found (some ps) notifiers s = (true, call_all ps notifiers s)

  unfoldable pub notify : ℕ → AtomicHashMap (List ℕ) → List (Option (S → S)) → S → Option (Bool × S)
  unfolding notify_found
  notify channel_id m notifiers s =
      get m channel_id >>= λ found. some (notify_found found notifiers s)

-- `S` is the state that the callbacks work on.
abbrev pub Buffers : (A S : Type 0) → Type 0
Buffers A S = List (Option (CacheBuffer A S))

module _ {A S : Type 0} where
  -- `Fill` of what `buffer_wptr.lock()` gives
  unfoldable pub fill_locked :
      ℕ → Option (Option (CacheBuffer A S)) → A → Buffers A S → S → Buffers A S × S
  fill_locked p none msg buffers s = (buffers, s)
  fill_locked p (some none) msg buffers s = (buffers, s)
  fill_locked p (some (some b)) msg buffers s =
      let (b', s') = fill b msg s in (set buffers p (some b'), s')

  -- The loop of `Dispatch`
  unfoldable pub fill_all : List ℕ → A → Buffers A S → S → Buffers A S × S
  unfolding fill_locked
  fill_all [] msg buffers s = (buffers, s)
  fill_all (p ∷ ps) msg buffers s =
      let (buffers', s') = fill_locked p (get_elem? buffers p) msg buffers s in
      fill_all ps msg buffers' s'

  -- `Dispatch`, for what the channel has
  unfoldable pub dispatch_found :
      Option (List ℕ)
      → ℕ
      → A
      → AtomicHashMap (List ℕ)
      → List (Option (S → S))
      → Buffers A S
      → S
      → Option (Bool × Buffers A S × S)
  unfolding fill_all notify
  dispatch_found none channel_id msg notifies notifiers buffers s = some (false, buffers, s)
  dispatch_found (some ps) channel_id msg notifies notifiers buffers s = do
    let (buffers', s') = fill_all ps msg buffers s
    (told, s'') ← notify channel_id notifies notifiers s'
    some (told, buffers', s'')

  -- `Dispatch`, for whether the process is shut down
  unfoldable pub dispatch :
      Bool
      → ℕ
      → A
      → (buffers_map notifies_map : AtomicHashMap (List ℕ)) → List (Option (S → S))
      → Buffers A S
      → S
      → Option (Bool × Buffers A S × S)
  unfolding dispatch_found
  dispatch true channel_id msg buffers_map notifies_map notifiers buffers s =
      some (false, buffers, s)
  dispatch false channel_id msg buffers_map notifies_map notifiers buffers s =
      get buffers_map channel_id >>= λ found.
      dispatch_found found channel_id msg notifies_map notifiers buffers s
