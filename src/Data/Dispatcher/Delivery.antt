-- ===== src/Data/Dispatcher/Delivery.antt =====
-- Where a message goes: to each buffer of its channel once, and to no other.
use cmw.Prelude.{
  ◌++◌, Bool, not, ℕ, ◌≡◌, refl, sym, ap, ◌∙◌, true, false, List, [], ◌∷◌, Option, none, some,
  ◌>>=◌, ◌==◌, if◌then◌else◌, arith, get_elem?, In,
}
use native.Mathlib.Decide.{ℕ_discrete}
use cmw.Base.AtomicHashMap.{AtomicHashMap, get}
use cmw.Data.CacheBuffer.{CacheBuffer, store}
use cmw.Data.Dispatcher.{extended, add, Buffers}

-- Buffers or notifiers are added to channels one after the other.
unfoldable pub add_all : List (ℕ × ℕ) → AtomicHashMap (List ℕ) → Option (AtomicHashMap (List ℕ))
add_all [] m = some m
add_all ((channel, p) ∷ adds) m = add channel p m >>= add_all adds

-- What a channel has, after what it had
unfoldable pub added_to : ℕ → List (ℕ × ℕ) → Option (List ℕ) → Option (List ℕ)
added_to channel [] found = found
added_to channel ((c, p) ∷ adds) found =
    added_to channel adds (if c == channel then some (extended p found) else found)

-- What `add` leaves a channel, read as one step of `added_to`
step :
    (c channel p : ℕ) (m m' : AtomicHashMap (List ℕ)) (had at_channel : Option (List ℕ))
    → get m c ≡ some had
    → get m channel ≡ some at_channel
    → get m' c ≡ (if channel == c then some (some (extended p at_channel)) else get m c)
    → get m' c ≡ some (if channel == c then some (extended p had) else had)
step c channel p m m' had at_channel e e_channel after = elim (ℕ_discrete channel c) [
  | yes same ↦
      let hit : (channel == c) ≡ true = ground (arith, same) in
      let there : some at_channel ≡ some had = sym e_channel ∙ ap (get m) same ∙ e in
      let had_it : at_channel ≡ had = cc in after ∙ rw (hit, had_it) refl
  | no differs ↦
      let miss : (channel == c) ≡ false = ground (arith, differs) in after ∙ rw (miss, e) refl
]

module _ {A S : Type 0} where
  -- A slot of the store after a message for it
  abbrev pub stored : A → Option (Option (CacheBuffer A S)) → Option (Option (CacheBuffer A S))
  stored msg none = none
  stored msg (some none) = some none
  stored msg (some (some b)) = some (some (store b msg))

  -- No buffer of the list that is alive has a fusion callback.
  abbrev pub Plain : List ℕ → Buffers A S → Type 0
  Plain ps buffers =
      (q : ℕ) (b : CacheBuffer A S)
      → In q ps
      → get_elem? buffers q ≡ some (some b)
      → b.fusion_callback ≡ none

  -- What a loop of `Dispatch` leaves in the store
  abbrev pub Filled : List ℕ → A → (before after : Buffers A S) → Type 0
  Filled ps msg before after =
      ((q : ℕ) → In q ps → get_elem? after q ≡ stored msg (get_elem? before q))
      × ((q : ℕ) → ¬ In q ps → get_elem? after q ≡ get_elem? before q)

-- What was added to a channel, in that order
abbrev pub of_channel : ℕ → List (ℕ × ℕ) → List ℕ
of_channel channel [] = []
of_channel channel ((c, p) ∷ adds) =
    if c == channel then p ∷ of_channel channel adds else of_channel channel adds

abbrev pub is_empty : {A : Type 0} → List A → Bool
is_empty [] = true
is_empty (x ∷ xs) = false

abbrev if_any : List ℕ → Option (List ℕ)
if_any [] = none
if_any (p ∷ ps) = some (p ∷ ps)

module _ {S : Type 0} where
  -- The callback of a notifier that is there and has one set
  abbrev pub callback_of : Option (Option (S → S)) → List (S → S)
  callback_of (some (some callback)) = callback ∷ []
  callback_of (some none) = []
  callback_of none = []

  abbrev pub callbacks : List ℕ → List (Option (S → S)) → List (S → S)
  callbacks [] notifiers = []
  callbacks (p ∷ ps) notifiers = callback_of (get_elem? notifiers p) ++ callbacks ps notifiers

  abbrev pub in_turn : List (S → S) → S → S
  in_turn [] s = s
  in_turn (f ∷ fs) s = in_turn fs (f s)

-- What `Dispatch` answers and what the callbacks leave, from what was added to the channel
abbrev pub Dispatched :
    {A S : Type 0}
    → (buffers_of notifiers_of : List ℕ) → A
    → List (Option (S → S))
    → Buffers A S
    → S
    → Option (Bool × Buffers A S × S)
    → Type 0
Dispatched [] ws msg notifiers buffers s answer = answer ≡ some (false, buffers, s)
Dispatched {A} {S} (p ∷ ps) ws msg notifiers buffers s answer =
    (buffers' : Buffers A S) × (answer
      ≡ some (not (is_empty ws), buffers', in_turn (callbacks ws notifiers) s))
    × Filled (p ∷ ps) msg buffers buffers'
