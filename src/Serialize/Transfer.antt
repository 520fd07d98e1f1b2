-- ===== src/Serialize/Transfer.antt =====
-- A value that one machine writes is read by another, whatever their byte orders.
use cmw.Prelude.{
  ◌≤◌, ◌≢◌, none, ◌∷◌, ℕ, ◌≡◌, sym, ap, ◌∙◌, Bool, true, List, [], ◌++◌, some, arith, length,
  append-nil, ◌^◌, ◌<◌, All,
}
use cmw.Serialize.Bytes.{ByteOrder, byteorder_lem}
use cmw.Serialize.Stream.{DataStream, DataType, advance, empty, of_bytes, reserved}
use cmw.Serialize.Stream.Growth.{reserve_cap_lem}
use cmw.Serialize.Stream.Scalars.{Ahead}
use cmw.Serialize.Containers.{Codec, word_codec, string_codec, list_codec, set_codec, map_codec}
use cmw.Serialize.Containers.RoundTrip.{RoundTrips, word-RoundTrips, string-RoundTrips}
use cmw.Serialize.Containers.Lists.{list-RoundTrips}
use cmw.Serialize.Containers.Maps.{set-RoundTrips, map-RoundTrips, Ordered}

-- The stream that one machine fills, and its bytes, from which a second machine reads in a new stream
abbrev pub written : {A : Type 0} → (ByteOrder → Codec A) → ByteOrder → A → DataStream
written c from a = (c from).write a (empty from)

abbrev pub sent : {A : Type 0} → (ByteOrder → Codec A) → ByteOrder → A → List ℕ
sent c from a = (written c from a).m_buf

-- No `int` of `reserve` overflows on either machine, and the second reads the value, and all bytes of it.
abbrev pub Arrives : {A : Type 0} → (ByteOrder → Codec A) → ByteOrder → ByteOrder → A → A → Type 0
Arrives c from to a old =
    ((written c from a).m_cap ≢ none)
    × ((of_bytes to (sent c from a)).m_cap ≢ none)
    × ((c to).read old (of_bytes to (sent c from a))
        ≡ some (true, a, advance (of_bytes to (sent c from a)) (length (sent c from a))))

-- Up to 2^30 bytes written into an empty stream, no `int` of `reserve` overflows.
in_room : (bytes : List ℕ) → length bytes ≤ 2 ^ 30 → reserved (some 0) 0 bytes ≢ none
in_room [] le e = cc
in_room (b ∷ bytes) le e =
    let (c, found, _) = reserve_cap_lem 0 0 (length (b ∷ bytes)) (omega arith) in
    let absurdity : some c ≡ none = sym found ∙ e in cc

module _ {A : Type 0} {c : ByteOrder → Codec A} {wire : A → List ℕ} {Fit : A → Type 0}
    (trips : (machine : ByteOrder) → RoundTrips machine (c machine) wire Fit) where
  -- A fit value whose bytes are 2^30 at most arrives.
  pub transfer :
      (from to : ByteOrder) (a old : A)
      → Fit a
      → length (sent c from a) ≤ 2 ^ 30
      → Arrives c from to a old
  unfolding empty of_bytes
  transfer from to a old fit le =
      let whole = (trips from).writes a (empty from) (byteorder_lem from) in
      let bytes : sent c from a ≡ wire a = ap (λ (s : DataStream). s.m_buf) whole in
      let cap : (written c from a).m_cap ≡ reserved (some 0) 0 (wire a) =
        ap (λ (s : DataStream). s.m_cap) whole in
      let ahead : Ahead (of_bytes to (sent c from a)) (wire a ++ []) = record {
        within = omega arith;
        unread = bytes ∙ sym (append-nil (wire a));
        small = le;
      } in
      (
        λ e. in_room (wire a) (omega (arith, ap length bytes)) (sym cap ∙ e),
        in_room (sent c from a) le,
        (trips to).reads a old (of_bytes to (sent c from a)) [] (byteorder_lem to) fit ahead
            ∙ ap (λ n. some (true, a, advance (of_bytes to (sent c from a)) n))
                (ap length (sym bytes)),
      )

module _ (junk : ℕ) (from to : ByteOrder) where
  -- A word of `width` bytes, under the tag of any type and with at most 2^30 bytes in all, arrives at a machine of either byte order from one
  -- of either byte order.
  pub word-Arrives :
      (type : DataType) (width n old : ℕ)
      → n < 256 ^ width
      → length (sent (λ m. word_codec m junk type width) from n) ≤ 2 ^ 30
      → Arrives (λ m. word_codec m junk type width) from to n old
  word-Arrives type width n old lt =
      transfer (λ m. word-RoundTrips m junk type width) from to n old lt

  -- A string of fewer than 2^31 bytes whose bytes on the wire are 2^30 at most arrives, whatever bytes it has and whatever the byte orders.
  string-Arrives :
      (v old : List ℕ)
      → length v < 2 ^ 31
      → length (sent (λ m. string_codec m junk) from v) ≤ 2 ^ 30
      → Arrives (λ m. string_codec m junk) from to v old
  string-Arrives v old lt = transfer (λ m. string-RoundTrips m junk) from to v old lt

  module _ {A : Type 0} {c : ByteOrder → Codec A} {wire : A → List ℕ} {Fit : A → Type 0}
      (trips : (machine : ByteOrder) → RoundTrips machine (c machine) wire Fit) where
    -- A list of fewer than 2^31 elements and at most 2^30 bytes on the wire arrives, in order, if its elements' type makes the round trip and
    -- they are fit for it.
    pub list-Arrives :
        (xs old : List A)
        → length xs < 2 ^ 31
        → All Fit xs
        → length (sent (λ m. list_codec m junk (c m)) from xs) ≤ 2 ^ 30
        → Arrives (λ m. list_codec m junk (c m)) from to xs old
    list-Arrives xs old short fit =
        transfer (λ m. list-RoundTrips (trips m) junk) from to xs old (short, fit)

    -- A set of fewer than 2^31 elements and at most 2^30 bytes on the wire arrives if its elements' type makes the round trip and they are fit
    -- for it.
    pub set-Arrives :
        (lt : A → A → Bool) (xs old : List A)
        → length xs < 2 ^ 31
        → All Fit xs
        → Ordered lt xs
        → length (sent (λ m. set_codec m junk lt (c m)) from xs) ≤ 2 ^ 30
        → Arrives (λ m. set_codec m junk lt (c m)) from to xs old
    set-Arrives lt xs old short fit ordered =
        transfer (λ m. set-RoundTrips (trips m) junk lt) from to xs old (short, fit, ordered)

  -- A map of fewer than 2^31 entries, whose bytes on the wire are 2^30 at most, arrives, entry by entry, if
  -- the types of its keys and values make the round trip and they are fit for it; no `int` of `reserve`
  -- overflows on the way.
  pub map-Arrives :
      {K V : Type 0} {ck : ByteOrder → Codec K} {cv : ByteOrder → Codec V} {wk : K → List ℕ}
      {wv : V → List ℕ} {Fk : K → Type 0} {Fv : V → Type 0}
      → ((machine : ByteOrder) → RoundTrips machine (ck machine) wk Fk)
      → ((machine : ByteOrder) → RoundTrips machine (cv machine) wv Fv)
      → (lt : K → K → Bool) (m old : List (K × V)) → length m < 2 ^ 31
      → All (λ e. Fk e.0 × Fv e.1) m
      → Ordered (λ d e. lt d.0 e.0) m
      → length (sent (λ o. map_codec o junk lt (ck o) (cv o)) from m) ≤ 2 ^ 30
      → Arrives (λ o. map_codec o junk lt (ck o) (cv o)) from to m old
  map-Arrives tk tv lt m old short fit ordered =
      transfer (λ o. map-RoundTrips (tk o) (tv o) junk lt) from to m old (short, fit, ordered)
