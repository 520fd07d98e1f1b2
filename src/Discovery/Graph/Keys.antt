-- ===== src/Discovery/Graph/Keys.antt =====
-- The keys of the edges out of a vertex tell them apart where no node's name has an underscore.
use cmw.Prelude.{◌≡◌, ◌≢◌, refl, ap₂, ◌&&◌, [], ◌∷◌, ◌++◌, arith}
use cmw.Prelude.Assoc.{Text, text_beq, text_beq_iff}
use cmw.Discovery.Graph.{key}

-- A name without an underscore
abbrev pub Plain : Text → Type 0
Plain [] = Unit
Plain (x ∷ xs) = (x ≢ b'_') × Plain xs

not-Plain : (c v : Text) → Plain (c ++ b'_' ∷ v) → ⊥
not-Plain [] v p = p.0 refl
not-Plain (x ∷ c) v p = not-Plain c v p.1

pub key_injective : (c d v w : Text) → Plain v → Plain w → key c v ≡ key d w → (c ≡ d) × (v ≡ w)
unfolding key
key_injective [] [] v w pv pw e = (refl, cc)
key_injective [] (y ∷ d) v w pv pw e =
    let tail : v ≡ d ++ b'_' ∷ w = cc in absurd (not-Plain d w (rw tail at pv))
key_injective (x ∷ c) [] v w pv pw e =
    let tail : w ≡ c ++ b'_' ∷ v = cc in absurd (not-Plain c v (rw tail at pw))
key_injective (x ∷ c) (y ∷ d) v w pv pw e =
    let tail : key c v ≡ key d w = unfold key in cc in
    let (same, last) = key_injective c d v w pv pw tail in
    let first : x ≡ y = cc in (ap₂ ◌∷◌ first same, last)

pub text_beq-key :
    (c d v w : Text)
    → Plain v
    → Plain w
    → text_beq (key c v) (key d w) ≡ (text_beq c d && text_beq v w)
text_beq-key c d v w pv pw = ground (
  arith,
  text_beq_iff (key c v) (key d w),
  text_beq_iff c d,
  text_beq_iff v w,
  key_injective c d v w pv pw,
)
