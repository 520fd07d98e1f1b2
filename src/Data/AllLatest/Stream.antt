-- ===== src/Data/AllLatest/Stream.antt =====
-- What a reader of two fused channels sees of the messages that arrive on them.
use cmw.Prelude.{
  ℕ, suc, ◌+◌, ◌-◌, ◌^◌, ◌≤◌, ◌<◌, ◌≡◌, refl, ◌∙◌, List, [], ◌∷◌, ◌++◌, Option, none, some, arith,
  length, length-append, get_elem?-append_end, sub64, append_assoc, append-nil,
}
use cmw.Data.CacheBuffer.{CacheBuffer, init, store}
use cmw.Data.CacheBuffer.History.{
  Holds, init-Holds, init_fields, store-Holds, fill_plain, fill_armed, store_keeps,
}
use cmw.Data.ChannelBuffer.{Outcome, miss, hit, latest}
use cmw.Data.ChannelBuffer.Fetch.{latest_lem, fetch_lem, fetch_history}
use cmw.Data.AllLatest.{Rings, AllLatest, on_m0, dispatch_m0, dispatch_m1, construct, fusion_fetch}

pub data Arrival (M0 M1 : Type 0) : Type 0 where
  first : M0 → Arrival M0 M1
  second : M1 → Arrival M0 M1

abbrev outcome : {A : Type 0} → Option A → Outcome A
outcome none = miss
outcome (some m) = hit m

abbrev pairs_step : {A B : Type 0} → Option B → A → List (A × B)
pairs_step none v = []
pairs_step (some m) v = (v, m) ∷ []

latest-last :
    {A S : Type 0} {b : CacheBuffer A S} (h : List A) (v : A)
    → Holds b (h ++ v ∷ [])
    → 2 ≤ b.capacity
    → length (h ++ v ∷ []) + 1 < 2 ^ 64
    → latest b ≡ hit v
latest-last h v w two room =
    latest_lem w two room ∙ ground (arith, length-append h (v ∷ []), get_elem?-append_end h v)

module _ {M0 M1 : Type 0} where
  pub run : AllLatest M0 M1 → List (Arrival M0 M1) → AllLatest M0 M1
  run a [] = a
  run a (first v ∷ es) = run (dispatch_m0 a v) es
  run a (second v ∷ es) = run (dispatch_m1 a v) es

  -- The messages of the second channel.
  unfoldable pub seconds : List (Arrival M0 M1) → List M1
  seconds [] = []
  seconds (first v ∷ es) = seconds es
  seconds (second v ∷ es) = v ∷ seconds es

  -- Each message of the first channel with the newest of the second before it, if there is one.
  unfoldable pub pairs : Option M1 → List (Arrival M0 M1) → List (M0 × M1)
  pairs last [] = []
  pairs none (first v ∷ es) = pairs none es
  pairs (some m) (first v ∷ es) = (v, m) ∷ pairs (some m) es
  pairs last (second v ∷ es) = pairs (some v) es

  length-pairs : (last : Option M1) (es : List (Arrival M0 M1)) → length (pairs last es) ≤ length es
  unfolding pairs
  length-pairs last [] = omega arith
  length-pairs none (first v ∷ es) = omega (arith, length-pairs none es)
  length-pairs (some m) (first v ∷ es) = omega (arith, length-pairs (some m) es)
  length-pairs last (second v ∷ es) = omega (arith, length-pairs (some v) es)

  -- The rings hold the histories of the second channel and of the pairs, `last` is the newest
  -- message of the second channel, and the callback is set. The fused ring has `k` cells.
  pub record Tracks (k : ℕ) (a : AllLatest M0 M1) (h1 : List M1) (hf : List (M0 × M1))
      (last : Option M1) : Type 0 where
    pub armed : a.m0.fusion_callback ≡ some on_m0
    pub plain1 : a.rings.m1.fusion_callback ≡ none
    pub plainf : a.rings.fusion.fusion_callback ≡ none
    pub holds1 : Holds a.rings.m1 h1
    pub holdsf : Holds a.rings.fusion hf
    pub deep1 : 2 ≤ a.rings.m1.capacity
    pub depthf : a.rings.fusion.capacity ≡ k
    pub newest1 : latest a.rings.m1 ≡ outcome last

  pub record Bound (n : ℕ) (h1 : List M1) (hf : List (M0 × M1)) : Type 0 where
    pub room1 : length h1 + n + 1 < 2 ^ 64
    pub roomf : length hf + n + 1 < 2 ^ 64

  module _ {k : ℕ} {a : AllLatest M0 M1} {h1 : List M1} {hf : List (M0 × M1)} {n : ℕ} where
    fill-Tracks :
        (last : Option M1) (v : M0)
        → Tracks k a h1 hf last
        → Bound (suc n) h1 hf
        → Tracks k (dispatch_m0 a v) h1 (hf ++ pairs_step last v) last
    unfolding dispatch_m0
    fill-Tracks none v t r =
        let called = fill_armed a.m0 v a.rings t.armed in
        let quiet : on_m0 v a.rings ≡ a.rings = unfold on_m0 in rw (t.newest1, on_m0) in
        rw (called, quiet, append-nil hf) t
    fill-Tracks (some m) v t r =
        let called = fill_armed a.m0 v a.rings t.armed in
        let joined : on_m0 v a.rings ≡ record (a.rings) { fusion = store a.rings.fusion (v, m) } =
          unfold on_m0 in rw (t.newest1, on_m0, fill_plain a.rings.fusion (v, m) tt t.plainf) in
        rw (called, joined)
          (record {
            armed = t.armed;
            plain1 = t.plain1;
            plainf = (store_keeps a.rings.fusion (v, m)).0 ∙ t.plainf;
            holds1 = t.holds1;
            holdsf = store-Holds a.rings.fusion hf t.holdsf (v, m) (omega arith);
            deep1 = t.deep1;
            depthf = (store_keeps a.rings.fusion (v, m)).1 ∙ t.depthf;
            newest1 = t.newest1;
          })

    second-Tracks :
        (last : Option M1) (v : M1)
        → Tracks k a h1 hf last
        → Bound (suc n) h1 hf
        → Tracks k (dispatch_m1 a v) (h1 ++ v ∷ []) hf (some v)
    unfolding dispatch_m1
    second-Tracks last v t r = rw (fill_plain a.rings.m1 v tt t.plain1) (record {
      armed = t.armed;
      plain1 = (store_keeps a.rings.m1 v).0 ∙ t.plain1;
      plainf = t.plainf;
      holds1 = store-Holds a.rings.m1 h1 t.holds1 v (omega arith);
      holdsf = t.holdsf;
      depthf = t.depthf;
      deep1 = rw ((store_keeps a.rings.m1 v).1) t.deep1;
      newest1 =
          latest-last h1 v (store-Holds a.rings.m1 h1 t.holds1 v (omega arith))
            (rw ((store_keeps a.rings.m1 v).1) t.deep1) (omega (arith, length-append h1 (v ∷ [])));
    })

  run-Tracks :
      (es : List (Arrival M0 M1)) {k : ℕ} {a : AllLatest M0 M1} (h1 : List M1) (hf : List (M0 × M1))
      (last : Option M1)
      → Tracks k a h1 hf last
      → Bound (length es) h1 hf
      → Holds (run a es).rings.m1 (h1 ++ seconds es)
        × Holds (run a es).rings.fusion (hf ++ pairs last es)
        × ((run a es).rings.fusion.capacity ≡ k)
  unfolding run seconds pairs
  run-Tracks [] h1 hf last t r = rw (append-nil h1, append-nil hf) (t.holds1, t.holdsf, t.depthf)
  run-Tracks (first v ∷ es) h1 hf none t r =
      rw (append-nil hf) at
        (run-Tracks es h1 (hf ++ []) none (fill-Tracks none v t r) (rw append-nil (omega arith)))
  run-Tracks (first v ∷ es) h1 hf (some m) t r = rw (append_assoc) at (
      run-Tracks es h1 (hf ++ (v, m) ∷ []) (some m) (fill-Tracks (some m) v t r)
        (omega (arith, length-append hf ((v, m) ∷ []))))
  run-Tracks (second v ∷ es) h1 hf last t r = rw (append_assoc) at (
      run-Tracks es (h1 ++ v ∷ []) hf (some v) (second-Tracks last v t r)
        (omega (arith, length-append h1 (v ∷ []))))

module _ {M0 M1 : Type 0} (n0 n1 : ℕ) (null0 : M0) (null1 : M1) where
  -- Two fresh rings of `n0` and `n1` values, fused.
  abbrev pub fresh : AllLatest M0 M1
  fresh = construct (init n0 null0) (init n1 null1) (null0, null1)

  fresh-Tracks : n0 + 1 < 2 ^ 64 → 0 < n1 → n1 + 1 < 2 ^ 64 → Tracks (n0 + 1) fresh [] [] none
  unfolding construct
  fresh-Tracks lt0 pos1 lt1 =
      let cells0 = (init_fields {S = Rings M0 M1} n0 null0).1 in
      let cells1 = (init_fields {S = Unit {0}} n1 null1).1 in
      let size : sub64 (init {S = Rings M0 M1} n0 null0).capacity 1 ≡ n0 =
        rw cells0 (omega arith) in
      let deep : 2 ≤ (init {S = Unit {0}} n1 null1).capacity = rw cells1 (omega arith) in
      let held = init-Holds {S = Unit {0}} n1 null1 lt1 in
      record {
        armed = refl;
        plain1 = (init_fields n1 null1).0;
        plainf = (init_fields _ (null0, null1)).0;
        holds1 = held;
        holdsf = rw size (init-Holds n0 (null0, null1) lt0);
        deep1 = deep;
        depthf = rw size ((init_fields n0 (null0, null1)).1 ∙ omega arith);
        newest1 = latest_lem held deep (omega arith);
      }

  -- Two fused channels: whatever arrives, and in whatever order, a reader of the fused ring sees the
  -- history of the first channel's messages, each paired with the newest message of the second
  -- channel at its arrival, from the second channel's first message on. It gets the pair at its
  -- index while the pair is among the last `n0`, and the newest pair if its own is gone or if the index is
  -- 0. Both rings are for at least one value, the positions stay below 2^64, and the index is at most one
  -- past the newest pair.
  pub fused_reads :
      (es : List (Arrival M0 M1)) (index : ℕ)
      → 0 < n0
      → n0 + 1 < 2 ^ 64
      → 0 < n1
      → n1 + 1 < 2 ^ 64
      → length es + 1 < 2 ^ 64
      → index ≤ length (pairs none es) + 1
      → fusion_fetch (run fresh es) index ≡ fetch_history n0 (pairs none es) index
  unfolding fusion_fetch
  fused_reads es index pos0 lt0 pos1 lt1 short near =
      let (_, held, depth) = run-Tracks es [] [] none (fresh-Tracks lt0 pos1 lt1) (omega arith) in
      let kept : (run fresh es).rings.fusion.capacity - 1 ≡ n0 = omega arith in
      rw kept at (fetch_lem held (omega arith) (omega (arith, length-pairs none es)) index near)
