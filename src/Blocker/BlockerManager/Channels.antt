-- ===== src/Blocker/BlockerManager/Channels.antt =====
-- What a call on one channel does to the blockers of all.
use cmw.Prelude.{
  ℕ, ◌≡◌, refl, inl, inr, Option, none, some, ◌==◌, if◌then◌else◌, arith, ==_refl, Bool-cases,
}
use cmw.Prelude.Assoc.{Text, text_eq, text_beq, lookup, insert, lookup-insert}
use cmw.Blocker.{Blocker, new, default_capacity}
use cmw.Blocker
use cmw.Blocker.BlockerManager.{
  Typed, BlockerMap, get_or_create, get_or_create_blocker, publish_to, publish,
}

module _ {M S : Type 0} where
  abbrev pub made : ℕ → (capacity : ℕ) → Text → M → Typed M S
  made tag capacity channel dummy = record { tag = tag; blocker = new capacity channel dummy }

  -- The blocker that a call works on: that of the name, or a new one
  abbrev pub found_or_made : Option (Typed M S) → ℕ → (capacity : ℕ) → Text → M → Typed M S
  found_or_made none tag capacity channel dummy = made tag capacity channel dummy
  found_or_made (some t) tag capacity channel dummy = t

  lookup-twice :
      (channel other : Text) (v w : Typed M S) (m : BlockerMap M S)
      → lookup other (insert channel v (insert channel w m))
        ≡ (if text_beq channel other then some v else lookup other m)
  lookup-twice channel other v w m =
      ground
        (arith, lookup-insert channel other v (insert channel w m), lookup-insert channel other w m)

  publish_to_lem :
      (o : Option (Typed M S)) (tag : ℕ) (channel : Text) (dummy msg : M) (m : BlockerMap M S)
      (s : S) (other : Text)
      → lookup channel m ≡ o
      → (let t = found_or_made o tag default_capacity channel dummy in
          let (b', s') = Blocker.publish msg t.blocker s in
          let (m', s'', done) =
            publish_to (get_or_create o tag default_capacity channel dummy m) tag channel msg s in
          (done ≡ (t.tag == tag))
          × (s'' ≡ (if t.tag == tag then s' else s))
          × (lookup other m' ≡ (
              if (t.tag == tag)
              then (if text_beq channel other
                  then some (record { tag = tag; blocker = b' })
                  else lookup other m)
              else lookup other m)))
  unfolding publish_to get_or_create
  publish_to_lem none tag channel dummy msg m s other e =
      rw (==_refl tag) (refl, refl, lookup-twice channel other _ _ m)
  publish_to_lem (some t) tag channel dummy msg m s other e = elim (Bool-cases (t.tag == tag)) [
    | inl same ↦ rw same (refl, refl, lookup-insert channel other _ m)
    | inr differs ↦ rw differs (refl, refl, refl)
  ]

  -- `Publish` on a channel works on the blocker of that name, or on a new one of capacity 10. If the
  -- blocker is for another type of message it returns false, no callback is called, and no blocker is
  -- changed. Otherwise it returns true, the blocker and its subscribers take the message, and the blocker
  -- stands under the name; the blockers of all other names are as they were.
  pub publish_lem :
      (tag : ℕ) (channel : Text) (dummy msg : M) (m : BlockerMap M S) (s : S) (other : Text)
      → (let t = found_or_made (lookup channel m) tag default_capacity channel dummy in
          let (b', s') = Blocker.publish msg t.blocker s in
          let (m', s'', done) = publish tag channel dummy msg m s in
          (done ≡ (t.tag == tag))
          × (s'' ≡ (if t.tag == tag then s' else s))
          × (lookup other m' ≡ (
              if (t.tag == tag)
              then (if text_beq channel other
                  then some (record { tag = tag; blocker = b' })
                  else lookup other m)
              else lookup other m)))
  unfolding publish get_or_create_blocker
  publish_lem tag channel dummy msg m s other =
      publish_to_lem (lookup channel m) tag channel dummy msg m s other refl
