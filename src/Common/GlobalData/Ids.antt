-- ===== src/Common/GlobalData/Ids.antt =====
-- Names and their ids.
use mathlib.Core.Bool.{false≢true}
use cmw.Prelude.{
  ℕ, zero, suc, ◌+◌, ◌%◌, ◌^◌, ◌<◌, ◌≡◌, ◌≢◌, refl, sym, ap, subst, ◌∙◌, ◌⊎◌, Option, none, some,
  add64, if◌then◌else◌, inl, inr, arith, Bool-cases, ◌==◌, ==_iff,
}
use cmw.Prelude.Assoc.{Text, text_beq, text_beq_iff}
use cmw.Base.AtomicHashMap.{AtomicHashMap, has, get, put}
use cmw.Base.AtomicHashMap.Buckets.{is_some}
use cmw.Base.AtomicHashMap.Updates.{IsMap, has_lem, put_lem}
use cmw.Common.GlobalData.{probe, register}

-- A turn of the loop, by what the id has
abbrev stop : Text → ℕ → Option ℕ → Option Text → Option ℕ
stop name id next none = some id
stop name id next (some n) = if text_beq name n then some id else next

module _ (m : AtomicHashMap Text) (w : IsMap m) where
  probe-stop :
      (f id : ℕ) (name : Text) (v : Option Text)
      → get m id ≡ some v
      → probe (suc f) id name m ≡ stop name id (probe f (add64 id 1) name m) v
  unfolding probe
  probe-stop f id name v e =
      let (v', e', h) = has_lem m w id in
      let same : v' ≡ v = cc in by_value v (h ∙ ap (λ o. some (is_some o)) same) e
    where
      by_value :
          (v : Option Text)
          → has m id ≡ some (is_some v)
          → get m id ≡ some v
          → probe (suc f) id name m ≡ stop name id (probe f (add64 id 1) name m) v
      by_value none h e = rw (h, probe)
      by_value (some n) h e = rw (h, e, probe)

  -- The loop ends at an id that nobody has, or the name itself.
  found :
      (f h id : ℕ) (name : Text)
      → probe f h name m ≡ some id
      → (get m id ≡ some none) ⊎ (get m id ≡ some (some name))
  unfolding probe
  found zero h id name e = cc
  found (suc f) h id name e =
      let (v, has_v, _) = has_lem m w h in
      by_value v has_v (sym (probe-stop f h name v has_v) ∙ e) (found f (add64 h 1) id name)
    where
      at_h : (v : Option Text) → get m h ≡ some v → some h ≡ some id → get m id ≡ some v
      at_h v has_v same = let here : h ≡ id = cc in subst (λ x. get m x ≡ some v) here has_v

      by_value :
          (v : Option Text)
          → get m h ≡ some v
          → stop name h (probe f (add64 h 1) name m) v ≡ some id
          → (probe f (add64 h 1) name m ≡ some id
              → (get m id ≡ some none) ⊎ (get m id ≡ some (some name)))
          → (get m id ≡ some none) ⊎ (get m id ≡ some (some name))
      by_value none has_v e later = inl (at_h none has_v e)
      by_value (some n) has_v e later = elim (Bool-cases (text_beq name n)) [
        | inl same ↦ inr (
            at_h (some n) has_v (rw same at e)
            ∙ ap (λ t. some (some t)) (sym ((text_beq_iff name n).0 same)))
        | inr other ↦ later (rw other at e)
      ]

  -- With an id that nobody has within the fuel, the loop ends.
  ends :
      (f h k : ℕ) (name : Text)
      → k < f
      → get m ((h + k) % 2 ^ 64) ≡ some none
      → h < 2 ^ 64
      → (id : ℕ) × (probe f h name m ≡ some id)
  ends zero h k name lt free small = absurd (omega arith)
  ends (suc f) h zero name lt free small =
      let here : (h + 0) % 2 ^ 64 ≡ h = omega arith in
      (h, probe-stop f h name none (sym (ap (get m) here) ∙ free))
  ends (suc f) h (suc k) name lt free small =
      let (v, has_v, _) = has_lem m w h in
      let there : (h + suc k) % 2 ^ 64 ≡ (add64 h 1 + k) % 2 ^ 64 = omega arith in
      by_value v (probe-stop f h name v has_v)
        (ends f (add64 h 1) k name (omega arith) (sym (ap (get m) there) ∙ free) (omega arith))
    where
      by_value :
          (v : Option Text)
          → probe (suc f) h name m ≡ stop name h (probe f (add64 h 1) name m) v
          → (id : ℕ) × (probe f (add64 h 1) name m ≡ some id)
          → (id : ℕ) × (probe (suc f) h name m ≡ some id)
      by_value none e rest = (h, e)
      by_value (some n) e (id, later) = elim (Bool-cases (text_beq name n)) [
        | inl same ↦ (h, rw same at e)
        | inr other ↦ (id, (rw other at e) ∙ later)
      ]

module _ (m m' : AtomicHashMap Text) (w : IsMap m) (w' : IsMap m') (id : ℕ) (name : Text)
    (named : get m' id ≡ some (some name))
    (others : (key : ℕ) → id ≢ key → get m' key ≡ get m key) where
  -- The loop ends at the same id once the name has it.
  again : (f h : ℕ) → probe f h name m ≡ some id → probe f h name m' ≡ some id
  unfolding probe
  again zero h e = cc
  again (suc f) h e =
      let (v, has_v, _) = has_lem m w h in
      by_value v has_v (sym (probe-stop m w f h name v has_v) ∙ e) (again f (add64 h 1))
    where
      hit : h ≡ id → probe (suc f) h name m' ≡ some id
      hit same =
          let e' : get m' h ≡ some (some name) = ap (get m') same ∙ named in
          probe-stop m' w' f h name (some name) e'
          ∙ (rw ((text_beq_iff name name).1 refl) (ap some same))

      by_value :
          (v : Option Text)
          → get m h ≡ some v
          → stop name h (probe f (add64 h 1) name m) v ≡ some id
          → (probe f (add64 h 1) name m ≡ some id → probe f (add64 h 1) name m' ≡ some id)
          → probe (suc f) h name m' ≡ some id
      by_value none has_v e later = hit cc
      by_value (some n) has_v e later = elim (Bool-cases (text_beq name n)) [
        | inl same ↦ let e' : some h ≡ some id = rw same at e in hit cc
        | inr other ↦ elim (Bool-cases (id == h)) [
          | inl here ↦ hit (sym ((==_iff id h).0 here))
          | inr apart ↦
              let kept : get m' h ≡ some (some n) =
                others h (λ same. false≢true (sym apart ∙ (==_iff id h).1 same)) ∙ has_v in
              probe-stop m' w' f h name (some n) kept ∙ (rw other (later (rw other at e)))
        ]
      ]

if_other : {A : Type 0} (x y : A) (id key : ℕ) → id ≢ key → (if id == key then x else y) ≡ y
if_other x y id key apart = elim (Bool-cases (id == key)) [
  | inl same ↦ absurd (apart ((==_iff id key).0 same))
  | inr other ↦ rw other refl
]

register-some :
    (m m' : AtomicHashMap Text) (fuel hash id : ℕ) (name : Text)
    → probe fuel hash name m ≡ some id
    → put m id name ≡ some m'
    → register fuel hash name m ≡ some (id, m')
unfolding register
register-some m m' fuel hash id name e p = rw (e, p, register)

-- In a map of names in which an id is free among the `fuel` ids from the hash on, with the wrap-around of 64
-- bits, a registration returns an id. The id was free or had the name; afterwards it has the name, and
-- every other id has what it had. The same registration once more gives the same id.
pub register_lem :
    (m : AtomicHashMap Text) (fuel hash k : ℕ) (name : Text)
    → IsMap m
    → hash < 2 ^ 64
    → k < fuel
    → get m ((hash + k) % 2 ^ 64) ≡ some none
    → (id : ℕ) × (m' m'' : AtomicHashMap Text) × (register fuel hash name m ≡ some (id, m'))
      × ((get m id ≡ some none) ⊎ (get m id ≡ some (some name)))
      × ((key : ℕ) → get m' key ≡ (if id == key then some (some name) else get m key))
      × (register fuel hash name m' ≡ some (id, m''))
register_lem m fuel hash k name w small lt free =
    let (id, e) = ends m w fuel hash k name lt free small in
    let (m', p, w', all) = put_lem m id name w in
    let (m'', p', w'', _) = put_lem m' id name w' in
    let named : get m' id ≡ some (some name) = all id ∙ (rw ((==_iff id id).1 refl) refl) in
    let others : (key : ℕ) → id ≢ key → get m' key ≡ get m key =
      λ key apart. all key ∙ if_other _ _ id key apart in
    (
      id,
      m',
      m'',
      register-some m m' fuel hash id name e p,
      found m w fuel hash id name e,
      all,
      register-some m' m'' fuel hash id name (again m m' w w' id name named others fuel hash e) p',
    )
