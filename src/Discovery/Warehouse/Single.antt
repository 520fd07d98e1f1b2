-- ===== src/Discovery/Warehouse/Single.antt =====
-- discovery/container/single_value_warehouse.cpp: what a search finds after a change.
use cmw.Prelude.{
  ℕ, Bool, true, false, not, ◌&&◌, List, [], ◌∷◌, Option, none, some, ◌==◌, if◌then◌else◌, ◌≡◌,
  refl, sym, ◌+◌, length, arith, Bool-cases, inl, inr,
}
use cmw.Prelude.Assoc.{lookup, insert, erase, lookup-insert, lookup-erase, nat_eq}
use cmw.Discovery.Role.{Role, RoleAttributes, matches}
use cmw.Discovery.Warehouse.{
  RoleMap, erase_if, find_if, filter_if, is_match, is_some, single_add, single_remove_role,
  single_search_key, search_attr, search_attr_all, remove_attr, size,
}

-- The value a search by key would find, with what it hands out
abbrev present : {A : Type 0} → (Role → A) → Option Role → Option A
present output none = none
present output (some r) = some (output r)

search_lem :
    {A : Type 0} (output : Role → A) (m : RoleMap) (key : ℕ)
    → single_search_key output m key ≡ present output (lookup key m)
unfolding single_search_key
search_lem output m key = elim (lookup key m) [ none ↦ refl | some r ↦ refl ]

present_if :
    {A : Type 0} (output : Role → A) (c : Bool) (r : Role) (o : Option Role) (x : Option A)
    → present output o ≡ x
    → present output (if c then some r else o) ≡ (if c && true then some (output r) else x)
present_if output true r o x at = refl
present_if output false r o x at = at

absent_if :
    {A : Type 0} (output : Role → A) (c : Bool) (o : Option Role) (x : Option A)
    → present output o ≡ x
    → present output (if c then none else o) ≡ (if c && true then none else x)
absent_if output true o x at = refl
absent_if output false o x at = at

same_if : {A : Type 0} (c : Bool) (y x : Option A) → x ≡ (if c && false then y else x)
same_if true y x = refl
same_if false y x = refl

abbrev add_unless : Bool → RoleMap → ℕ → Role → Bool × RoleMap
add_unless refused m k role = if refused then (false, m) else (true, insert k role m)

after_add :
    {A : Type 0} (output : Role → A) (m : RoleMap) (k j : ℕ) (role : Role) (refused : Bool)
    → single_search_key output (add_unless refused m k role).1 j
      ≡ (if (k == j) && not refused then some (output role) else single_search_key output m j)
after_add output m k j role true =
    same_if (k == j) (some (output role)) (single_search_key output m j)
after_add output m k j role false =
    rw (search_lem output (insert k role m) j, lookup-insert k j role m)
      (present_if output (k == j) role (lookup j m) (single_search_key output m j)
        (sym (search_lem output m j)))

add_result :
    (m : RoleMap) (k : ℕ) (role : Role) (refused : Bool)
    → (add_unless refused m k role).0 ≡ not refused
add_result m k role true = refl
add_result m k role false = refl

-- A search for any key j after `Add` of a role under k: the new role where j is k and the role was
-- added, and otherwise what the search found before. `Add` answers false exactly where it must not
-- replace a role and k has one, and then adds nothing.
search_key-add :
    {A : Type 0} (output : Role → A) (m : RoleMap) (k j : ℕ) (role : Role) (ignore_if_exist : Bool)
    → ((single_add m k role ignore_if_exist).0 ≡ not (not ignore_if_exist && is_some (lookup k m)))
      × (single_search_key output (single_add m k role ignore_if_exist).1 j ≡ (
          if (k == j) && not (not ignore_if_exist && is_some (lookup k m))
          then some (output role)
          else single_search_key output m j))
unfolding single_add
search_key-add output m k j role ignore_if_exist =
    let refused = not ignore_if_exist && is_some (lookup k m) in
    (add_result m k role refused, after_add output m k j role refused)

abbrev pub is_matched : RoleAttributes → Option Role → Bool
is_matched target none = false
is_matched target (some r) = matches r target

remove_found :
    {A : Type 0} (output : Role → A) (m : RoleMap) (k j : ℕ) (role : Role) (found : Option Role)
    → lookup k m ≡ found
    → single_search_key output
        (elim found as (λ x. RoleMap) [
          | none ↦ m
          | some r ↦ if not (matches r role.attributes) then m else erase k m
        ])
        j
      ≡ (if (k == j) && is_matched role.attributes found
          then none
          else single_search_key output m j)
remove_found output m k j role none at = same_if (k == j) none (single_search_key output m j)
remove_found output m k j role (some r) at = elim (Bool-cases (matches r role.attributes)) [
  | inl it ↦
      rw (it, search_lem output (erase k m) j, lookup-erase k j m)
        (absent_if output (k == j) (lookup j m) (single_search_key output m j)
          (sym (search_lem output m j)))
  | inr it ↦ rw it (same_if (k == j) none (single_search_key output m j))
]

-- A search for any key j after `Remove` of a role under k: nothing where j is k and the role under k
-- matches the attributes of the one to remove, and otherwise what the search found before.
pub search_key-remove :
    {A : Type 0} (output : Role → A) (m : RoleMap) (k j : ℕ) (role : Role)
    → single_search_key output (single_remove_role m k role) j ≡ (
        if (k == j) && is_matched role.attributes (lookup k m)
        then none
        else single_search_key output m j)
unfolding single_remove_role
search_key-remove output m k j role = remove_found output m k j role (lookup k m) refl

-- The test is of no entry that is left.
filter-erase : (test : ℕ × Role → Bool) (m : RoleMap) → filter_if test (erase_if test m) ≡ []
unfolding filter_if erase_if
filter-erase test [] = refl
filter-erase test (e ∷ m) = ground (arith, filter-erase test m)

find-erase : (test : ℕ × Role → Bool) (m : RoleMap) → find_if test (erase_if test m) ≡ none
unfolding find_if erase_if
find-erase test [] = refl
find-erase test (e ∷ m) = ground (arith, find-erase test m)

length-erase :
    (test : ℕ × Role → Bool) (m : RoleMap)
    → length (erase_if test m) + length (filter_if test m) ≡ length m
unfolding filter_if erase_if
length-erase test [] = refl
length-erase test (e ∷ m) = ground (arith, length-erase test m)

found_none :
    {A : Type 0} (output : Role → A) (found : Option Role)
    → found ≡ none
    → elim found as (λ x. Option A) [ none ↦ none | some r ↦ some (output r) ] ≡ none
found_none output none at = refl
found_none output (some r) at = ground arith

-- After `Remove` of all the roles that match some attributes, in both containers, the searches for a
-- match find none and leave the caller's vector as it is, and the container is smaller by the number of
-- roles that matched.
pub search_attr-remove_attr :
    {A : Type 0} (output : Role → A) (m : RoleMap) (target : RoleAttributes) (out : List A)
    → (search_attr output (remove_attr m target) target ≡ none)
      × (search_attr_all output (remove_attr m target) target out ≡ (false, out))
      × (size (remove_attr m target) + length (filter_if (is_match target) m) ≡ size m)
unfolding search_attr search_attr_all remove_attr size
search_attr-remove_attr output m target out = (
  found_none output (find_if (is_match target) (erase_if (is_match target) m))
      (find-erase (is_match target) m),
  rw (filter-erase (is_match target) m) refl,
  length-erase (is_match target) m,
)
