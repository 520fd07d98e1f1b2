-- ===== src/Serialize/Stream/Growth.antt =====
-- `reserve`: its loop ends, and the capacity that it asks for.
use cmw.Prelude.{
  >>=-cong, append-nil, ◌==◌, if◌then◌else◌, ◌>>=◌, true, List, [], ◌∷◌, ◌++◌, Option, none, length,
  length-append, ap, sym, ℕ, zero, suc, ◌+◌, ◌*◌, ◌^◌, ◌∙◌, false, leb, ◌≤◌, ◌<◌, ◌≡◌, refl, ◌⊎◌,
  inl, inr, some, arith, ltb, ltb→lt, Bool-cases,
}
use cmw.Serialize.Stream.{grow, reserve_cap, reserved}

-- What the loop leaves: enough room, no less than before, and less than twice the need if it grew.
pub record Enough (need cap c : ℕ) : Type 0 where
  pub room : need ≤ c
  pub no_loss : cap ≤ c
  pub frugal : (c ≡ cap) ⊎ (c < 2 * need)

less : (need cap c : ℕ) → cap < need → Enough need (cap * 2) c → c < 2 * need
less need cap c lt e = elim e.frugal [ inl same ↦ omega arith | inr b ↦ b ]

grow_from :
    (f need cap : ℕ)
    → 0 < cap
    → 0 < f
    → need < f + cap
    → need ≤ 2 ^ 30
    → (c : ℕ) × (grow f need cap ≡ some c) × Enough need cap c
unfolding grow
grow_from zero need cap pos fuel lt small = absurd (omega arith)
grow_from (suc f) need cap pos fuel lt small = elim (Bool-cases (ltb cap need)) [
  | inl more ↦
      let below : cap < need = ltb→lt cap need more in
      let (c, found, e) =
        grow_from f need (cap * 2) (omega arith) (omega arith) (omega arith) small in
      (
        c,
        ground arith,
        record {
          room = e.room;
          no_loss = omega (arith, e.no_loss);
          frugal = inr (less need cap c below e);
        },
      )
  | inr done ↦
      (cap, ground arith, record { room = ground arith; no_loss = omega arith; frugal = inl refl })
]

reserve_small :
    (size cap len : ℕ)
    → size + len ≤ 2 ^ 30
    → reserve_cap size cap len ≡ grow (suc (suc (size + len))) (size + len) cap
unfolding reserve_cap
reserve_small size cap len small =
    let fits : leb (2 ^ 31) (size + len) ≡ false = ground arith in rw fits

grown :
    (size cap len : ℕ)
    → size + len ≤ 2 ^ 30
    → (c : ℕ) × (grow (suc (suc (size + len))) (size + len) cap ≡ some c)
      × Enough (size + len) cap c
grown size zero len small = elim (Bool-cases (ltb 0 (size + len))) [
  | inl more ↦
      let below : 0 < size + len = ltb→lt 0 (size + len) more in
      let (c, found, e) =
        grow_from (suc (size + len)) (size + len) 1 (omega arith) (omega arith) (omega arith)
          small in
      (
        c,
        unfold grow in rw more found,
        record {
          room = e.room;
          no_loss = omega arith;
          frugal = elim e.frugal [ inl one ↦ inr (omega arith) | inr b ↦ inr b ];
        },
      )
  | inr done ↦ (
    0,
    unfold grow in rw done,
    record { room = ground arith; no_loss = omega arith; frugal = inl refl },
  )
]
grown size (suc cap) len small =
    grow_from (suc (suc (size + len))) (size + len) (suc cap) (omega arith) (omega arith)
      (omega arith) small

-- For up to 2^30 bytes in all, `reserve` ends, no `int` of it overflows, and the capacity has room for
-- the new bytes, is no less than before, and is less than twice the need if it is more than before.
pub reserve_cap_lem :
    (size cap len : ℕ)
    → size + len ≤ 2 ^ 30
    → (c : ℕ) × (reserve_cap size cap len ≡ some c) × Enough (size + len) cap c
reserve_cap_lem size cap len small =
    let (c, found, e) = grown size cap len small in (c, reserve_small size cap len small ∙ found, e)

-- Fuel above what the loop needs changes nothing.
grow-fuel :
    (f g need cap : ℕ)
    → 0 < f
    → 0 < g
    → need < f + cap
    → need < g + cap
    → grow f need cap ≡ grow g need cap
unfolding grow
grow-fuel zero g need cap pf pg f_ok g_ok = absurd (omega arith)
grow-fuel (suc f) zero need cap pf pg f_ok g_ok = absurd (omega arith)
grow-fuel (suc f) (suc g) need cap pf pg f_ok g_ok = elim (Bool-cases (ltb cap need)) [
  | inl more ↦
      let below : cap < need = ltb→lt cap need more in
      let next = if cap == 0 then 1 else cap * 2 in
      let larger : cap < next = ground arith in
      let rest : grow f need next ≡ grow g need next =
        grow-fuel f g need next (omega arith) (omega arith) (omega arith) (omega arith) in
      rw (more, rest) refl
  | inr done ↦ rw done refl
]

-- The loop for some bytes and then for more gives what the loop for all of them does.
grow-more :
    (f first all cap : ℕ)
    → first ≤ all
    → 0 < f
    → first < f + cap
    → (grow f first cap >>= λ c. grow (suc (suc all)) all c) ≡ grow (suc (suc all)) all cap
unfolding grow
grow-more zero first all cap le pos fuel = absurd (omega arith)
grow-more (suc f) first all cap le pos fuel = elim (Bool-cases (ltb cap first)) [
  | inl more ↦
      let below : cap < first = ltb→lt cap first more in
      let more' : ltb cap all ≡ true = ground arith in
      let next = if cap == 0 then 1 else cap * 2 in
      let larger : cap < next = ground arith in
      let rest = grow-more f first all next le (omega arith) (omega arith) in
      let fuelled : grow (suc (suc all)) all next ≡ grow (suc all) all next =
        grow-fuel (suc (suc all)) (suc all) all next (omega arith) (omega arith) (omega arith)
          (omega arith) in
      elim (Bool-cases (leb (2 ^ 31) next)) [
        | inl over ↦ rw (more, more', over) refl
        | inr fits ↦ rw (more, more', fits) (rest ∙ fuelled)
      ]
  | inr done ↦ rw done refl
]

-- No capacity, whatever came before
abbrev overflown : ℕ → Option ℕ
overflown c = none

overflown_lem : (o : Option ℕ) → (o >>= overflown) ≡ none
overflown_lem none = refl
overflown_lem (some c) = refl

reserve-fits :
    (size cap len : ℕ)
    → leb (2 ^ 31) (size + len) ≡ false
    → reserve_cap size cap len ≡ grow (suc (suc (size + len))) (size + len) cap
unfolding reserve_cap
reserve-fits size cap len fits = rw fits

reserve-over :
    (size cap len : ℕ) → leb (2 ^ 31) (size + len) ≡ true → reserve_cap size cap len ≡ none
unfolding reserve_cap
reserve-over size cap len over = rw over

reserve-more :
    (size cap first more : ℕ)
    → (reserve_cap size cap first >>= λ c. reserve_cap (size + first) c more)
      ≡ reserve_cap size cap (first + more)
reserve-more size cap first more =
    let sum : size + first + more ≡ size + (first + more) = omega arith in
    elim (Bool-cases (leb (2 ^ 31) (size + (first + more)))) [
      | inl over ↦
          >>=-cong (reserve_cap size cap first)
            (λ c. reserve-over (size + first) c more (ap (leb (2 ^ 31)) sum ∙ over))
          ∙ overflown_lem (reserve_cap size cap first)
          ∙ sym (reserve-over size cap (first + more) over)
      | inr fits ↦
          let fits' : leb (2 ^ 31) (size + first) ≡ false = ground arith in
          >>=-cong (reserve_cap size cap first) (λ c.
            reserve-fits (size + first) c more (ap (leb (2 ^ 31)) sum ∙ fits)
            ∙ ap (λ n. grow (suc (suc n)) n c) sum)
          ∙ ap (λ o. o >>= λ c. grow (suc (suc (size + (first + more)))) (size + (first + more)) c)
              (reserve-fits size cap first fits')
          ∙ grow-more (suc (suc (size + first))) (size + first) (size + (first + more)) cap
              (omega arith) (omega arith) (omega arith)
          ∙ sym (reserve-fits size cap (first + more) fits)
    ]

pub reserved-append :
    (cap : Option ℕ) (size : ℕ) (xs ys : List ℕ)
    → reserved (reserved cap size xs) (size + length xs) ys ≡ reserved cap size (xs ++ ys)
reserved-append cap size [] ys = ap (λ n. reserved cap n ys) (omega arith)
reserved-append none size (x ∷ xs) [] = refl
reserved-append (some c) size (x ∷ xs) [] =
    ap (λ n. reserve_cap size c (suc n)) (ap length (sym (append-nil xs)))
reserved-append none size (x ∷ xs) (y ∷ ys) = refl
reserved-append (some c) size (x ∷ xs) (y ∷ ys) =
    reserve-more size c (length (x ∷ xs)) (length (y ∷ ys))
    ∙ ap (reserve_cap size c) (sym (length-append (x ∷ xs) (y ∷ ys)))
