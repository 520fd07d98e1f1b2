-- ===== src/Tests/Common.antt =====
-- Two names with the same hash.
use cmw.Prelude.{ℕ, ◌+◌, ◌%◌, ◌^◌, ◌≡◌, refl, ◌⊎◌, [], ◌∷◌, some, none, arith, ◌==◌, if◌then◌else◌}
use cmw.Prelude.Assoc.{Text}
use cmw.Base.AtomicHashMap.{AtomicHashMap, get, index, bucket_of, bucket_get}
use cmw.Base.AtomicHashMap.Updates.{IsMap}
use cmw.Common.GlobalData.{register}
use cmw.Common.GlobalData.Ids.{register_lem}

abbrev names : AtomicHashMap Text
names = record { table = [] ∷ ((5, b'a' ∷ []) ∷ []) ∷ []; capacity = 2 }

names-IsMap : IsMap names
names-IsMap = record { positive = omega arith; filled = refl; sorted = (tt, (tt, tt)) }

six_free : get names ((5 + 1) % 2 ^ 64) ≡ some none
unfolding get index bucket_of bucket_get
six_free = refl

register_lem_example :
    (id : ℕ) × (m' m'' : AtomicHashMap Text) × (register 2 5 (b'b' ∷ []) names ≡ some (id, m'))
    × ((get names id ≡ some none) ⊎ (get names id ≡ some (some (b'b' ∷ []))))
    × ((key : ℕ) → get m' key ≡ (if id == key then some (some (b'b' ∷ [])) else get names key))
    × (register 2 5 (b'b' ∷ []) m' ≡ some (id, m''))
register_lem_example =
    register_lem names 2 5 1 (b'b' ∷ []) names-IsMap (omega arith) (omega arith) six_free
