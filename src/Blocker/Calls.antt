-- ===== src/Blocker/Calls.antt =====
-- The calls on a blocker, and what they mean.
use cmw.Prelude.{
  ℕ, ◌+◌, ◌≡◌, refl, sym, ap, ◌∙◌, inl, inr, Bool, true, false, List, [], ◌∷◌, ◌++◌, none, some,
  arith, if◌then◌else◌, take, min, map, append_assoc, append-nil, ◌||◌, Bool-cases,
}
use cmw.Prelude.Assoc.{Text, text_eq, text_beq, lookup, insert, erase}
use cmw.Blocker.{
  Blocker, call_all, publish, reset, clear_observed, clear_published, observe, subscribe,
  unsubscribe, set_capacity,
}

-- The calls on a blocker. A subscriber notes its id and the message.
pub data Call (M : Type 0) : Type 0 where
  publishes : M → Call M
  subscribes : Text → Call M
  unsubscribes : Text → Call M
  sets_capacity : ℕ → Call M
  observes : Call M
  clears_observed : Call M
  clears_published : Call M
  resets : Call M

abbrev pub Notes : Type 0 → Type 0
Notes M = List (Text × M)

abbrev pub noter : {M : Type 0} → Text → M → Notes M → Notes M
noter id msg notes = notes ++ (id, msg) ∷ []

module _ {M : Type 0} where
  unfoldable pub step : Call M → Blocker M (Notes M) × Notes M → Blocker M (Notes M) × Notes M
  step (publishes msg) (b, notes) = publish msg b notes
  step (subscribes id) (b, notes) = ((subscribe id (noter id) b).0, notes)
  step (unsubscribes id) (b, notes) = ((unsubscribe id b).0, notes)
  step (sets_capacity c) (b, notes) = (set_capacity c b, notes)
  step observes (b, notes) = (observe b, notes)
  step clears_observed (b, notes) = (clear_observed b, notes)
  step clears_published (b, notes) = (clear_published b, notes)
  step resets (b, notes) = (reset b, notes)

  unfoldable pub run : List (Call M) → Blocker M (Notes M) × Notes M → Blocker M (Notes M) × Notes M
  run [] x = x
  run (c ∷ cs) x = run cs (step c x)

-- What the calls mean: all that was published since the last clearing, the newest first, how many of it
-- are kept, what was last observed, who subscribes, and what the subscribers were told.
pub record View (M : Type 0) : Type 0 where
  pub capacity : ℕ
  pub history : List M
  pub kept : ℕ
  pub observed : List M
  pub subscribers : List Text
  pub told : Notes M

abbrev pub has : Text → List Text → Bool
has id [] = false
has id (j ∷ js) = text_beq j id || has id js

abbrev pub without : Text → List Text → List Text
without id [] = []
without id (j ∷ js) = if text_beq j id then without id js else j ∷ without id js

pub without-absent : (id : Text) (ids : List Text) → has id ids ≡ false → without id ids ≡ ids
without-absent id [] e = refl
without-absent id (j ∷ js) e = elim (Bool-cases (text_beq j id)) [
  | inl same ↦ absurd (ground arith)
  | inr other ↦ rw other (ap (λ l. j ∷ l) (without-absent id js (ground arith)))
]

module _ {M : Type 0} where
  unfoldable pub view_step : Call M → View M → View M
  view_step (publishes msg) v = record v {
    history = msg ∷ v.history;
    kept = min v.capacity (v.kept + 1);
    told = v.told ++ map (λ id. (id, msg)) v.subscribers;
  }
  view_step (subscribes id) v = record v {
    subscribers = if has id v.subscribers then v.subscribers else v.subscribers ++ id ∷ [];
  }
  view_step (unsubscribes id) v = record v { subscribers = without id v.subscribers }
  view_step (sets_capacity c) v = record v { capacity = c; kept = min c v.kept }
  view_step observes v = record v { observed = take v.kept v.history }
  view_step clears_observed v = record v { observed = [] }
  view_step clears_published v = record v { history = []; kept = 0 }
  view_step resets v = record v { history = []; kept = 0; observed = []; subscribers = [] }

  unfoldable pub view_run : List (Call M) → View M → View M
  view_run [] v = v
  view_run (c ∷ cs) v = view_run cs (view_step c v)

  abbrev pub noters : List Text → List (Text × (M → Notes M → Notes M))
  noters ids = map (λ id. (id, noter id)) ids

  pub call_all_lem :
      (ids : List Text) (m : M) (notes : Notes M)
      → call_all (noters ids) m notes ≡ notes ++ map (λ id. (id, m)) ids
  unfolding call_all
  call_all_lem [] m notes = sym (append-nil notes)
  call_all_lem (id ∷ ids) m notes =
      call_all_lem ids m _ ∙ append_assoc notes ((id, m) ∷ []) (map (λ j. (j, m)) ids)

  pub lookup-noters :
      (id : Text) (ids : List Text)
      → (has id ids ≡ true → (f : M → Notes M → Notes M) × (lookup id (noters ids) ≡ some f))
        × (has id ids ≡ false → lookup id (noters ids) ≡ none)
  unfolding lookup
  lookup-noters id [] = (λ e. absurd cc, λ e. refl)
  lookup-noters id (j ∷ js) = elim (Bool-cases (text_beq j id)) [
    | inl same ↦ rw same (λ e. (noter j, refl), λ e. absurd cc)
    | inr other ↦ rw other (lookup-noters id js)
  ]

  pub insert-noters :
      (id : Text) (ids : List Text)
      → has id ids ≡ false
      → insert id (noter id) (noters ids) ≡ noters (ids ++ id ∷ [])
  unfolding insert
  insert-noters id [] e = refl
  insert-noters id (j ∷ js) e = elim (Bool-cases (text_beq j id)) [
    | inl same ↦ absurd (ground arith)
    | inr other ↦ rw other (ap (λ l. (j, noter j) ∷ l) (insert-noters id js (ground arith)))
  ]

  pub erase-noters : (id : Text) (ids : List Text) → erase id (noters ids) ≡ noters (without id ids)
  unfolding erase
  erase-noters id [] = refl
  erase-noters id (j ∷ js) = elim (Bool-cases (text_beq j id)) [
    | inl same ↦ rw same (erase-noters id js)
    | inr other ↦ rw other (ap (λ l. (j, noter j) ∷ l) (erase-noters id js))
  ]
