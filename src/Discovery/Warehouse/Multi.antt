-- ===== src/Discovery/Warehouse/Multi.antt =====
-- discovery/container/multi_value_warehouse.cpp: what a search finds after a change.
use cmw.Prelude.{
  ℕ, Bool, true, false, not, ◌&&◌, List, [], ◌∷◌, ◌++◌, ◌==◌, ==_iff, if◌then◌else◌, ◌≡◌, refl,
  arith, map,
}
use cmw.Discovery.Role.{Role, RoleAttributes}
use cmw.Discovery.Warehouse.{
  RoleMap, erase_if, filter_if, has_key, is_match, found_all, multi_add, multi_remove_role,
  multi_search_key_all,
}

found_if :
    {A : Type 0} (output : Role → A) (c : Bool) (out : List A) (xs ys : List Role)
    → found_all output out (if c then xs else ys)
      ≡ (if c then found_all output out xs else found_all output out ys)
found_if output true out xs ys = refl
found_if output false out xs ys = refl

same_if : (c : Bool) → ◌≡◌ {A = List Role} [] (if c then [] else [])
same_if true = refl
same_if false = refl

-- A search for all the roles of any key j after `Add` of a role under k that may join others: where j is
-- k, the new role and those of before, and otherwise what the search found before.
pub search_key_all-add :
    {A : Type 0} (output : Role → A) (m : RoleMap) (k j : ℕ) (role : Role) (out : List A)
    → multi_search_key_all output (multi_add m k role true).1 j out ≡ (
        if k == j
        then (true, out ++ output role ∷ map output (filter_if (has_key j) m))
        else multi_search_key_all output m j out)
unfolding multi_search_key_all multi_add filter_if
search_key_all-add output m k j role out =
    found_if output (k == j) out (role ∷ filter_if (has_key j) m) (filter_if (has_key j) m)

filter-not :
    (target : RoleAttributes) (m : RoleMap) (k j : ℕ)
    → filter_if (has_key j) (erase_if (λ e. has_key k e && is_match target e) m) ≡ (
        if k == j
        then filter_if (λ e. has_key j e && not (is_match target e)) m
        else filter_if (has_key j) m)
unfolding filter_if erase_if
filter-not target [] k j = same_if (k == j)
filter-not target (e ∷ m) k j =
    ground (arith, filter-not target m k j, ==_iff e.0 k, ==_iff e.0 j, ==_iff k j)

-- A search for all the roles of any key j after `Remove` of a role under k: where j is k, the roles of k
-- that do not match the removed one's attributes, and otherwise what the search found before.
pub search_key_all-remove :
    {A : Type 0} (output : Role → A) (m : RoleMap) (k j : ℕ) (role : Role) (out : List A)
    → multi_search_key_all output (multi_remove_role m k role) j out ≡ (
        if k == j
        then found_all output out
            (filter_if (λ e. has_key j e && not (is_match role.attributes e)) m)
        else multi_search_key_all output m j out)
unfolding multi_search_key_all multi_remove_role
search_key_all-remove output m k j role out = rw (filter-not role.attributes m k j) (
    found_if output (k == j) out
      (filter_if (λ e. has_key j e && not (is_match role.attributes e)) m)
      (filter_if (has_key j) m))
