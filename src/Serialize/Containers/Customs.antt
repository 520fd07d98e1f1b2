-- ===== src/Serialize/Containers/Customs.antt =====
-- Classes that name their members in `SERIALIZE`: they survive the stream if the members do.
use cmw.Prelude.{
  ℕ, ◌+◌, ◌≡◌, sym, ap, ◌∙◌, subst, true, List, [], ◌∷◌, ◌++◌, some, arith, length, length-append,
  append-nil, append_assoc, ◌>>=◌,
}
use cmw.Serialize.Bytes.{ByteOrder}
use cmw.Serialize.Stream.{DataType, code, write_raw, write_tag, advance}
use cmw.Serialize.Stream.Scalars.{Ahead, byte-Ahead, advance-Ahead, write_raw-write_raw}
use cmw.Serialize.Containers.{Codec, args_pair, args_end, serializable}
use cmw.Serialize.Containers.RoundTrip.{RoundTrips}

abbrev pub pair_wire : {K V : Type 0} → (K → List ℕ) → (V → List ℕ) → K × V → List ℕ
pair_wire wk wv (k, v) = wk k ++ wv v

module _ {K V : Type 0} {machine : ByteOrder} {ck : Codec K} {cv : Codec V} {wk : K → List ℕ}
    {wv : V → List ℕ} {Fk : K → Type 0} {Fv : V → Type 0} (tk : RoundTrips machine ck wk Fk)
    (tv : RoundTrips machine cv wv Fv) where
  pub pair-RoundTrips :
      RoundTrips machine (args_pair ck cv) (pair_wire wk wv) (λ (k, v). Fk k × Fv v)
  unfolding args_pair
  pair-RoundTrips = record {
    writes = λ (k, v) s same.
        ap (cv.write v) (tk.writes k s same)
        ∙ tv.writes v (write_raw s (wk k)) same
        ∙ write_raw-write_raw s (wk k) (wv v);
    reads = λ (k, v) (k0, v0) s r same (fk, fv) a.
        let next = subst (Ahead s) (append_assoc (wk k) (wv v) r) a in
        let moved : s.m_pos + length (wk k) + length (wv v) ≡ s.m_pos + length (wk k ++ wv v) =
          omega (arith, length-append (wk k) (wv v)) in
        ap (λ o. o >>= λ (_, k', t). cv.read v0 t >>= λ (b, v', u). some (b, (k', v'), u))
          (tk.reads k k0 s (wv v ++ r) same fk next)
        ∙ ap (λ o. o >>= λ (b, v', u). some (b, (k, v'), u))
            (tv.reads v v0 (advance s (length (wk k))) r same fv
              (advance-Ahead (wk k) (wv v ++ r) next))
        ∙ ap (λ p. some (true, (k, v), record s { m_pos = p })) moved;
  }

pub end-RoundTrips : (machine : ByteOrder) → RoundTrips machine args_end (λ _. []) (λ _. Unit {0})
unfolding args_end
end-RoundTrips machine = record {
  writes = λ _ s _. ap (λ l. record s { m_buf = l }) (sym (append-nil s.m_buf));
  reads = λ _ _ s r _ _ _.
      let stay : s.m_pos ≡ s.m_pos + 0 = omega arith in
      ap (λ p. some (true, tt, record s { m_pos = p })) stay;
}

abbrev pub custom_wire : {A : Type 0} → (A → List ℕ) → A → List ℕ
custom_wire wire a = code DataType.custom ∷ wire a

-- A class survives the stream if its members do.
pub serializable-RoundTrips :
    {A : Type 0} {machine : ByteOrder} {c : Codec A} {wire : A → List ℕ} {Fit : A → Type 0}
    → RoundTrips machine c wire Fit
    → RoundTrips machine (serializable c) (custom_wire wire) Fit
unfolding serializable
serializable-RoundTrips {wire = wire} t = record {
  writes = λ a s same.
      t.writes a (write_tag s DataType.custom) same
      ∙ write_raw-write_raw s (code DataType.custom ∷ []) (wire a);
  reads = λ a old s r same fit h.
      let moved : s.m_pos + 1 + length (wire a) ≡ s.m_pos + length (custom_wire wire a) =
        omega arith in
      rw (byte-Ahead h) (
        ap (λ o. o >>= λ (_, b, u). some (true, b, u))
          (t.reads a old (advance s 1) r same fit
            (advance-Ahead (code DataType.custom ∷ []) (wire a ++ r) h))
        ∙ ap (λ p. some (true, a, record s { m_pos = p })) moved);
}
