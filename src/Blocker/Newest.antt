-- ===== src/Blocker/Newest.antt =====
-- What a blocker keeps of the messages published, and what its subscribers are told.
use cmw.Prelude.{
  ℕ, ◌+◌, ◌≤◌, ◌≡◌, refl, sym, ap, ◌∙◌, inl, inr, Bool, true, false, List, [], ◌∷◌, ◌++◌, Option,
  none, some, arith, ◌==◌, if◌then◌else◌, length, take, min, map, Bool-cases,
}
use cmw.Prelude.Assoc.{Text, text_eq, lookup, erase}
use cmw.Blocker.{
  Blocker, new, enqueue, call_all, publish, reset, clear_observed, clear_published, observe,
  subscribe, unsubscribe, subscribe_to, unsubscribe_from, set_capacity,
}
use cmw.Blocker.Trim.{trim_lem, take-take, take-push}
use cmw.Blocker.Calls.{
  Call, publishes, subscribes, unsubscribes, sets_capacity, observes, clears_observed,
  clears_published, resets, Notes, noter, step, run, View, has, view_step, view_run, noters,
  call_all_lem, lookup-noters, insert-noters, erase-noters, without-absent,
}

module _ {M : Type 0} where
  pub record Shows (b : Blocker M (Notes M)) (notes : Notes M) (v : View M) : Type 0 where
    pub same_capacity : b.capacity ≡ v.capacity
    pub bounded : v.kept ≤ v.capacity
    pub newest : b.published ≡ take v.kept v.history
    pub watched : b.observed ≡ v.observed
    pub called : b.callbacks ≡ noters v.subscribers
    pub noted : notes ≡ v.told

  published_if :
      (t : Bool) (a b : Blocker M (Notes M))
      → (if t then a else b).published ≡ (if t then a.published else b.published)
  published_if true a b = refl
  published_if false a b = refl

  enqueue_lem :
      (m : M) (b : Blocker M (Notes M)) (k : ℕ) (h : List M)
      → b.published ≡ take k h
      → k ≤ b.capacity
      → (enqueue m b).published ≡ take (min b.capacity (k + 1)) (m ∷ h)
  unfolding enqueue
  enqueue_lem m b k h e le =
      published_if (b.capacity == 0) b _ ∙ elim (Bool-cases (b.capacity == 0)) [
        | inl none_kept ↦
            let zero_k : k ≡ 0 = ground arith in
            let no_more : min b.capacity (k + 1) ≡ 0 = ground arith in
            rw (none_kept, no_more) (e ∙ ap (λ n. take n h) zero_k)
        | inr some_kept ↦ rw some_kept (
            trim_lem (length (m ∷ b.published)) b.capacity (m ∷ b.published) (omega arith)
            ∙ ap (λ l. take b.capacity (m ∷ l)) e
            ∙ take-push b.capacity k m h)
      ]

  module _ (id : Text) (b : Blocker M (Notes M)) (notes : Notes M) (v : View M)
      (w : Shows b notes v) where
    subscribed-Shows :
        (o : Option (M → Notes M → Notes M))
        → lookup id b.callbacks ≡ o
        → Shows (subscribe_to o id (noter id) b).0 notes (view_step (subscribes id) v)
    unfolding subscribe_to view_step
    subscribed-Shows none e =
        let out : lookup id (noters v.subscribers) ≡ none = ap (lookup id) (sym w.called) ∙ e in
        elim (Bool-cases (has id v.subscribers)) [
          | inl inside ↦
              absurd (let (f, found) = (lookup-noters {M = M} id v.subscribers).0 inside in cc)
          | inr absent ↦ record {
            same_capacity = w.same_capacity;
            bounded = w.bounded;
            newest = w.newest;
            watched = w.watched;
            called = rw (absent, w.called) (insert-noters id v.subscribers absent);
            noted = w.noted;
          }
        ]
    subscribed-Shows (some f) e =
        let found : lookup id (noters v.subscribers) ≡ some f = ap (lookup id) (sym w.called) ∙ e in
        elim (Bool-cases (has id v.subscribers)) [
          | inl inside ↦ record {
            same_capacity = w.same_capacity;
            bounded = w.bounded;
            newest = w.newest;
            watched = w.watched;
            called = rw inside w.called;
            noted = w.noted;
          }
          | inr absent ↦ absurd (let out = (lookup-noters {M = M} id v.subscribers).1 absent in cc)
        ]

    unsubscribed-Shows :
        (o : Option (M → Notes M → Notes M))
        → lookup id b.callbacks ≡ o
        → Shows (unsubscribe_from o id b).0 notes (view_step (unsubscribes id) v)
    unfolding unsubscribe_from view_step
    unsubscribed-Shows none e =
        let out : lookup id (noters v.subscribers) ≡ none = ap (lookup id) (sym w.called) ∙ e in
        elim (Bool-cases (has id v.subscribers)) [
          | inl inside ↦
              absurd (let (f, found) = (lookup-noters {M = M} id v.subscribers).0 inside in cc)
          | inr absent ↦ record {
            same_capacity = w.same_capacity;
            bounded = w.bounded;
            newest = w.newest;
            watched = w.watched;
            called = w.called ∙ ap noters (sym (without-absent id v.subscribers absent));
            noted = w.noted;
          }
        ]
    unsubscribed-Shows (some f) e = record {
      same_capacity = w.same_capacity;
      bounded = w.bounded;
      newest = w.newest;
      watched = w.watched;
      called = ap (erase id) w.called ∙ erase-noters id v.subscribers;
      noted = w.noted;
    }

  enqueue-rest :
      (m : M) (b : Blocker M (Notes M))
      → ((enqueue m b).capacity ≡ b.capacity)
        × ((enqueue m b).observed ≡ b.observed)
        × ((enqueue m b).callbacks ≡ b.callbacks)
  unfolding enqueue
  enqueue-rest m b = elim (Bool-cases (b.capacity == 0)) [
    | inl z ↦ ground arith
    | inr nz ↦ ground arith
  ]

  step-Shows :
      (c : Call M) (b : Blocker M (Notes M)) (notes : Notes M) (v : View M)
      → Shows b notes v
      → Shows (step c (b, notes)).0 (step c (b, notes)).1 (view_step c v)
  unfolding step view_step publish subscribe unsubscribe set_capacity observe clear_observed
      clear_published reset
  step-Shows (publishes m) b notes v w =
      let (cap, obs, calls) = enqueue-rest m b in
      record {
        same_capacity = cap ∙ w.same_capacity;
        bounded = omega arith;
        newest =
            enqueue_lem m b v.kept v.history w.newest (omega (arith, w.same_capacity, w.bounded))
            ∙ ap (λ n. take (min n (v.kept + 1)) (m ∷ v.history)) w.same_capacity;
        watched = obs ∙ w.watched;
        called = calls ∙ w.called;
        noted =
            ap (λ l. call_all l m notes) (calls ∙ w.called)
            ∙ call_all_lem v.subscribers m notes
            ∙ ap (λ n. n ++ map (λ id. (id, m)) v.subscribers) w.noted;
      }
  step-Shows (subscribes id) b notes v w = subscribed-Shows id b notes v w _ refl
  step-Shows (unsubscribes id) b notes v w = unsubscribed-Shows id b notes v w _ refl
  step-Shows (sets_capacity c) b notes v w = record {
    same_capacity = refl;
    bounded = omega arith;
    newest =
        trim_lem (length b.published) c b.published (omega arith)
        ∙ ap (take c) w.newest
        ∙ take-take c v.kept v.history;
    watched = w.watched;
    called = w.called;
    noted = w.noted;
  }
  step-Shows observes b notes v w = record {
    same_capacity = w.same_capacity;
    bounded = w.bounded;
    newest = w.newest;
    watched = w.newest;
    called = w.called;
    noted = w.noted;
  }
  step-Shows clears_observed b notes v w = record {
    same_capacity = w.same_capacity;
    bounded = w.bounded;
    newest = w.newest;
    watched = refl;
    called = w.called;
    noted = w.noted;
  }
  step-Shows clears_published b notes v w = record {
    same_capacity = w.same_capacity;
    bounded = omega arith;
    newest = refl;
    watched = w.watched;
    called = w.called;
    noted = w.noted;
  }
  step-Shows resets b notes v w = record {
    same_capacity = w.same_capacity;
    bounded = omega arith;
    newest = refl;
    watched = refl;
    called = refl;
    noted = w.noted;
  }

  run-Shows :
      (cs : List (Call M)) (b : Blocker M (Notes M)) (notes : Notes M) (v : View M)
      → Shows b notes v
      → Shows (run cs (b, notes)).0 (run cs (b, notes)).1 (view_run cs v)
  unfolding run view_run
  run-Shows [] b notes v w = w
  run-Shows (c ∷ cs) b notes v w = run-Shows cs _ _ (view_step c v) (step-Shows c b notes v w)

  abbrev pub unread : ℕ → View M
  unread capacity = record {
    capacity = capacity;
    history = [];
    kept = 0;
    observed = [];
    subscribers = [];
    told = [];
  }

  -- After any calls on a new blocker its published messages are the newest of those published since it
  -- was last cleared, the newest first, no more than its capacity; what was observed last is the same for
  -- the moment of the call; and each subscriber was told of each message published while it subscribed,
  -- once and in order, a message that the capacity leaves no room for as well.
  pub run_newest :
      (capacity : ℕ) (channel : Text) (dummy : M) (cs : List (Call M))
      → (let (b, notes) = run cs (new capacity channel dummy, []) in
          let v = view_run cs (unread capacity) in
          (b.published ≡ take v.kept v.history)
          × (v.kept ≤ b.capacity)
          × (b.observed ≡ v.observed)
          × (notes ≡ v.told))
  run_newest capacity channel dummy cs =
      let fresh : Shows (new capacity channel dummy) [] (unread capacity) = record {
        same_capacity = refl;
        bounded = omega arith;
        newest = refl;
        watched = refl;
        called = refl;
        noted = refl;
      } in
      let w = run-Shows cs _ _ _ fresh in
      (w.newest, omega (arith, w.bounded, w.same_capacity), w.watched, w.noted)
