-- ===== src/Serialize/Containers/Maps.antt =====
-- `std::set` and `std::map`: the items are read one by one and inserted, and the result is the
-- container that was written, since its items come in the order of their keys.
use cmw.Prelude.{
  ℕ, zero, suc, ◌+◌, ◌^◌, ◌<◌, ◌≡◌, refl, sym, ap, ◌∙◌, Bool, true, false, List, [], ◌∷◌, ◌++◌,
  some, arith, length, length-append, append-nil, append_assoc, ◌>>=◌, >>=-cong, >>=-assoc, All,
  All-append, All-zip,
}
use cmw.Serialize.Bytes.{ByteOrder}
use cmw.Serialize.Stream.{DataType, DataStream, write_tag, write_int32, advance}
use cmw.Serialize.Stream.Scalars.{Ahead, byteorder-write_word}
use cmw.Serialize.Containers.{
  Codec, rounds, write_items, read_set_items, insert_key, assign_key, set_codec, map_codec,
  write_entries, read_entries, args_pair,
}
use cmw.Serialize.Containers.RoundTrip.{
  RoundTrips, counted_wire, length-counted_wire, write-counted, counted-items, read-counted,
}
use cmw.Serialize.Containers.Lists.{items_wire, rounds_lem, write_items_lem, read-item}
use cmw.Serialize.Containers.Customs.{pair_wire, pair-RoundTrips}

-- `x` comes before `y` in the order of a container.
abbrev pub Before : {A : Type 0} → (A → A → Bool) → A → A → Type 0
Before lt x y = (lt x y ≡ true) × (lt y x ≡ false)

-- The items come in strictly increasing order, as a container's do.
abbrev pub Ordered : {A : Type 0} → (A → A → Bool) → List A → Type 0
Ordered lt [] = Unit
Ordered lt (x ∷ xs) = All (Before lt x) xs × Ordered lt xs

All-above :
    {A : Type 0} (lt : A → A → Bool) (xs : List A) → All (λ x. All (λ y. Before lt y x) []) xs
All-above lt [] = tt
All-above lt (x ∷ xs) = (tt, All-above lt xs)

-- Each item, when its turn comes, is inserted at the end.
Appends : {A : Type 0} → (A → List A → List A) → List A → List A → Type 0
Appends insert acc [] = Unit
Appends insert acc (x ∷ xs) = (insert x acc ≡ acc ++ x ∷ []) × Appends insert (acc ++ x ∷ []) xs

insert_key-last :
    {A : Type 0} (lt : A → A → Bool) (x : A) (acc : List A)
    → All (λ y. Before lt y x) acc
    → insert_key lt x acc ≡ acc ++ x ∷ []
unfolding insert_key
insert_key-last lt x [] h = refl
insert_key-last lt x (y ∷ acc) h = rw (h.0.1, h.0.0, insert_key-last lt x acc h.1)

assign_key-last :
    {K V : Type 0} (lt : K → K → Bool) (k : K) (v : V) (acc : List (K × V))
    → All (λ e. Before lt e.0 k) acc
    → assign_key lt k v acc ≡ acc ++ (k, v) ∷ []
unfolding assign_key
assign_key-last lt k v [] h = refl
assign_key-last lt k v ((j, w) ∷ acc) h = rw (h.0.1, h.0.0, assign_key-last lt k v acc h.1)

module _ {A : Type 0} (lt : A → A → Bool) (insert : A → List A → List A)
    (last : (x : A) (acc : List A)
      → All (λ y. Before lt y x) acc
      → insert x acc ≡ acc ++ x ∷ []) where
  Ordered-Appends :
      (xs acc : List A)
      → All (λ x. All (λ y. Before lt y x) acc) xs
      → Ordered lt xs
      → Appends insert acc xs
  unfolding Appends
  Ordered-Appends [] acc above ordered = tt
  Ordered-Appends (x ∷ xs) acc above ordered = (
    last x acc above.0,
    Ordered-Appends xs (acc ++ x ∷ [])
        (All-zip (λ z. All (λ y. Before lt y z) acc)
          (λ z p q. All-append (λ y. Before lt y z) acc (x ∷ []) p (q, tt)) xs above.1 ordered.0)
        ordered.1,
  )

module _ {A : Type 0} {machine : ByteOrder} {c : Codec A} {wire : A → List ℕ} {Fit : A → Type 0}
    (trip : RoundTrips machine c wire Fit) (insert : A → List A → List A) where
  read_set_items_lem :
      (xs acc : List A) (r : List ℕ) (s : DataStream)
      → s.m_byteorder ≡ machine
      → All Fit xs
      → Appends insert acc xs
      → Ahead s (items_wire wire xs ++ r)
      → read_set_items c insert (length xs) acc s
        ≡ some (true, acc ++ xs, advance s (length (items_wire wire xs)))
  unfolding read_set_items items_wire Appends
  read_set_items_lem [] acc r s same fit grows a =
      let stay : s.m_pos ≡ s.m_pos + 0 = omega arith in
      ap (λ l. some (true, l, s)) (sym (append-nil acc))
      ∙ ap (λ p. some (true, acc ++ [], record s { m_pos = p })) stay
  read_set_items_lem (x ∷ xs) acc r s same fit grows a =
      let step = read-item trip x (items_wire wire xs) r s same fit.0 a in
      let here = length (wire x) in
      let moved : s.m_pos + here + length (items_wire wire xs)
          ≡ s.m_pos + length (wire x ++ items_wire wire xs) =
        omega (arith, length-append (wire x) (items_wire wire xs)) in
      ap (λ o. o >>= λ (_, v, t). read_set_items c insert (length xs) (insert v acc) t) step.0
      ∙ ap (λ l. read_set_items c insert (length xs) l (advance s here)) grows.0
      ∙ read_set_items_lem xs (acc ++ x ∷ []) r (advance s here) same fit.1 grows.1 step.1
      ∙ ap (λ l. some (true, l, advance (advance s here) (length (items_wire wire xs))))
          (append_assoc acc (x ∷ []) xs)
      ∙ ap (λ p. some (true, acc ++ x ∷ xs, record s { m_pos = p })) moved

  -- The reader of a container that inserts its items, in front of the container's wire.
  read_inserting :
      (type : DataType) (junk : ℕ) (xs : List A) (r : List ℕ) (s : DataStream)
      → s.m_byteorder ≡ machine
      → length xs < 2 ^ 31
      → All Fit xs
      → Appends insert [] xs
      → Ahead s (counted_wire type (length xs) (items_wire wire xs) ++ r)
      → read_set_items c insert (rounds (length xs)) [] (advance s 6)
        ≡ some (true, xs, advance s (length (counted_wire type (length xs) (items_wire wire xs))))
  read_inserting type junk xs r s same lt fit grows a =
      let body = items_wire wire xs in
      let moved : s.m_pos + 6 + length body
          ≡ s.m_pos + length (counted_wire type (length xs) body) =
        omega (arith, length-counted_wire type (length xs) body) in
      ap (λ n. read_set_items c insert n [] (advance s 6)) (rounds_lem (length xs) lt)
      ∙ read_set_items_lem xs [] r (advance s 6) same fit grows
          (counted-items machine s same type (length xs) body r a)
      ∙ ap (λ p. some (true, xs, record s { m_pos = p })) moved

module _ {A : Type 0} {machine : ByteOrder} {c : Codec A} {wire : A → List ℕ} {Fit : A → Type 0}
    (trip : RoundTrips machine c wire Fit) where
  -- A set of fit elements survives the stream.
  pub set-RoundTrips :
      (junk : ℕ) (lt : A → A → Bool)
      → RoundTrips machine
          (set_codec machine junk lt c)
          (λ xs. counted_wire DataType.set (length xs) (items_wire wire xs))
          (λ xs. (length xs < 2 ^ 31) × All Fit xs × Ordered lt xs)
  unfolding set_codec
  set-RoundTrips junk lt = record {
    writes = λ xs s same.
        write_items_lem trip xs (write_int32 machine (write_tag s DataType.set) (length xs)) (
          byteorder-write_word machine (write_tag s DataType.set) same DataType.int32 4 (length xs))
        ∙ write-counted machine s same DataType.set (length xs) (items_wire wire xs);
    reads = λ xs old s r same fit a.
        let grows =
          Ordered-Appends lt (insert_key lt) (insert_key-last lt) xs [] (All-above lt xs) fit.2 in
        read-counted machine s same DataType.set junk (length xs) [] (items_wire wire xs) r
          (λ len u. read_set_items c (insert_key lt) (rounds len) [] u) fit.0 a
        ∙ read_inserting trip (insert_key lt) DataType.set junk xs r s same fit.0 fit.1 grows a;
  }

module _ {K V : Type 0} (ck : Codec K) (cv : Codec V) (lt : K → K → Bool) where
  abbrev assign : K × V → List (K × V) → List (K × V)
  assign e m = assign_key lt e.0 e.1 m

  -- The loops over entries are those over pairs.
  write_entries-pairs :
      (m : List (K × V)) (s : DataStream)
      → write_entries ck cv m s ≡ write_items (args_pair ck cv) m s
  unfolding write_entries write_items args_pair
  write_entries-pairs [] s = refl
  write_entries-pairs ((k, v) ∷ m) s = write_entries-pairs m (cv.write v (ck.write k s))

  read_entries-pairs :
      (n : ℕ) (m : List (K × V)) (s : DataStream)
      → read_entries ck cv lt n m s ≡ read_set_items (args_pair ck cv) assign n m s
  unfolding read_entries read_set_items args_pair
  read_entries-pairs zero m s = refl
  read_entries-pairs (suc n) m s =
      >>=-cong (ck.read ck.blank s) (λ x.
        >>=-cong (cv.read cv.blank x.2) (λ y. read_entries-pairs n (assign_key lt x.1 y.1 m) y.2)
        ∙ sym (>>=-assoc (cv.read cv.blank x.2) _ _))
      ∙ sym (>>=-assoc (ck.read ck.blank s) _ _)

module _ {K V : Type 0} {machine : ByteOrder} {ck : Codec K} {cv : Codec V} {wk : K → List ℕ}
    {wv : V → List ℕ} {Fk : K → Type 0} {Fv : V → Type 0} (tk : RoundTrips machine ck wk Fk)
    (tv : RoundTrips machine cv wv Fv) where
  -- A map of fit keys and values survives the stream.
  pub map-RoundTrips :
      (junk : ℕ) (lt : K → K → Bool)
      → RoundTrips machine
          (map_codec machine junk lt ck cv)
          (λ m. counted_wire DataType.map (length m) (items_wire (pair_wire wk wv) m))
          (λ m. (length m < 2 ^ 31) × All (λ e. Fk e.0 × Fv e.1) m × Ordered (λ d e. lt d.0 e.0) m)
  unfolding map_codec
  map-RoundTrips junk lt = record {
    writes = λ m s same.
        write_entries-pairs ck cv lt m (write_int32 machine (write_tag s DataType.map) (length m))
        ∙ write_items_lem (pair-RoundTrips tk tv) m
            (write_int32 machine (write_tag s DataType.map) (length m))
            (byteorder-write_word machine (write_tag s DataType.map) same DataType.int32 4
              (length m))
        ∙ write-counted machine s same DataType.map (length m) (items_wire (pair_wire wk wv) m);
    reads = λ m old s r same fit a.
        let key_lt : K × V → K × V → Bool = λ d e. lt d.0 e.0 in
        let grows =
          Ordered-Appends key_lt (assign ck cv lt) (λ e. assign_key-last lt e.0 e.1) m []
            (All-above key_lt m) fit.2 in
        read-counted machine s same DataType.map junk (length m) [] (items_wire (pair_wire wk wv) m)
          r (λ len u. read_entries ck cv lt (rounds len) [] u) fit.0 a
        ∙ read_entries-pairs ck cv lt (rounds (length m)) [] (advance s 6)
        ∙ read_inserting (pair-RoundTrips tk tv) (assign ck cv lt) DataType.map junk m r s same
            fit.0 fit.1 grows a;
  }
