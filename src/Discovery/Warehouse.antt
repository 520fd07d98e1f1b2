-- ===== src/Discovery/Warehouse.antt =====
-- discovery/container/single_value_warehouse.cpp and multi_value_warehouse.cpp: the roles of a
-- manager by key, at most one to a key or any number. The overloads of a search differ in what they
-- hand out of the roles found; `output` is that part. The order of the roles is the order in which
-- the container is walked. A call holds the container's lock throughout.
pub mod Single
pub mod Multi
use cmw.Prelude.{
  ℕ, Bool, true, false, not, ◌&&◌, ◌||◌, List, [], ◌∷◌, ◌++◌, Option, none, some, ◌==◌,
  if◌then◌else◌, length, map,
}
use cmw.Prelude.Assoc.{lookup, insert, erase, nat_eq}
use cmw.Discovery.Role.{Role, RoleAttributes, matches}

abbrev pub RoleMap : Type 0
RoleMap = List (ℕ × Role)

-- The roles that are not taken out by a test, in a walk over the container.
unfoldable pub erase_if : (ℕ × Role → Bool) → RoleMap → RoleMap
erase_if test [] = []
erase_if test (e ∷ m) = if test e then erase_if test m else e ∷ erase_if test m

unfoldable pub find_if : (ℕ × Role → Bool) → RoleMap → Option Role
find_if test [] = none
find_if test (e ∷ m) = if test e then some e.1 else find_if test m

unfoldable pub filter_if : (ℕ × Role → Bool) → RoleMap → List Role
filter_if test [] = []
filter_if test (e ∷ m) = if test e then e.1 ∷ filter_if test m else filter_if test m

abbrev pub has_key : ℕ → ℕ × Role → Bool
has_key key e = e.0 == key

abbrev pub is_match : RoleAttributes → ℕ × Role → Bool
is_match target e = matches e.1 target

abbrev pub is_some : {A : Type 0} → Option A → Bool
is_some none = false
is_some (some a) = true

-- What the searches for all roles append to the caller's vector, and whether they found one.
abbrev pub found_all : {A : Type 0} → (Role → A) → List A → List Role → Bool × List A
found_all output out [] = (false, out)
found_all output out (r ∷ rs) = (true, out ++ map output (r ∷ rs))

-- `GetAllRoles`, with roles or with their attributes
unfoldable pub get_all_roles : {A : Type 0} → (Role → A) → RoleMap → List A → List A
get_all_roles output m out = out ++ map (λ e. output e.1) m

-- The functions of `SingleValueWarehouse`
unfoldable pub single_add : RoleMap → ℕ → Role → Bool → Bool × RoleMap
single_add m key role ignore_if_exist =
    if not ignore_if_exist && is_some (lookup key m) then (false, m) else (true, insert key role m)

unfoldable pub clear : RoleMap → RoleMap
clear m = []

unfoldable pub size : RoleMap → ℕ
size m = length m

unfoldable pub single_remove_key : RoleMap → ℕ → RoleMap
single_remove_key m key = erase key m

unfoldable pub single_remove_role : RoleMap → ℕ → Role → RoleMap
single_remove_role m key role = elim (lookup key m) [
  | none ↦ m
  | some r ↦ if not (matches r role.attributes) then m else erase key m
]

-- In both containers: every role that matches.
unfoldable pub remove_attr : RoleMap → RoleAttributes → RoleMap
unfolding erase_if
remove_attr m target = erase_if (is_match target) m

unfoldable pub single_search_key : {A : Type 0} → (Role → A) → RoleMap → ℕ → Option A
single_search_key output m key = elim (lookup key m) [ none ↦ none | some r ↦ some (output r) ]

unfoldable pub single_search_key_all :
    {A : Type 0} → (Role → A) → RoleMap → ℕ → List A → Bool × List A
single_search_key_all output m key out = elim (lookup key m) [
  | none ↦ (false, out)
  | some r ↦ (true, out ++ output r ∷ [])
]

-- In both containers: the first role that matches, and all of them.
unfoldable pub search_attr : {A : Type 0} → (Role → A) → RoleMap → RoleAttributes → Option A
unfolding find_if
search_attr output m target = elim (find_if (is_match target) m) [
  | none ↦ none
  | some r ↦ some (output r)
]

unfoldable pub search_attr_all :
    {A : Type 0} → (Role → A) → RoleMap → RoleAttributes → List A → Bool × List A
unfolding filter_if
search_attr_all output m target out = found_all output out (filter_if (is_match target) m)

-- The functions of `MultiValueWarehouse`
unfoldable pub multi_add : RoleMap → ℕ → Role → Bool → Bool × RoleMap
unfolding find_if
multi_add m key role ignore_if_exist =
    if not ignore_if_exist && is_some (find_if (has_key key) m)
    then (false, m)
    else (true, (key, role) ∷ m)

unfoldable pub multi_remove_key : RoleMap → ℕ → RoleMap
unfolding erase_if
multi_remove_key m key = erase_if (has_key key) m

unfoldable pub multi_remove_role : RoleMap → ℕ → Role → RoleMap
unfolding erase_if
multi_remove_role m key role = erase_if (λ e. has_key key e && is_match role.attributes e) m

unfoldable pub multi_search_key : {A : Type 0} → (Role → A) → RoleMap → ℕ → Option A
unfolding find_if
multi_search_key output m key = elim (find_if (has_key key) m) [
  | none ↦ none
  | some r ↦ some (output r)
]

unfoldable pub multi_search_key_all :
    {A : Type 0} → (Role → A) → RoleMap → ℕ → List A → Bool × List A
unfolding filter_if
multi_search_key_all output m key out = found_all output out (filter_if (has_key key) m)
