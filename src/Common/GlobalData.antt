-- ===== src/Common/GlobalData.antt =====
-- common/global_data.cpp: the ids of the names of channels, of nodes and of tasks. The three functions are
-- alike but for their maps. The hash of a name is an argument.
pub mod Ids
use cmw.Prelude.{ℕ, zero, suc, Bool, true, false, Option, none, some, add64, if◌then◌else◌, ◌>>=◌}
use cmw.Prelude.Assoc.{Text, text_beq}
use cmw.Base.AtomicHashMap.{AtomicHashMap, has, get, put}

-- What a turn of the loop does with what an id has: it ends, or goes on, or reads through a null pointer.
abbrev pub turn : Text → ℕ → Option ℕ → Option (Option Text) → Option ℕ
turn name id next none = none
turn name id next (some none) = none
turn name id next (some (some n)) = if text_beq name n then some id else next

-- The loop of `RegisterChannel`, `RegisterNode` and `RegisterTaskName`, on fuel
unfoldable pub probe : ℕ → ℕ → Text → AtomicHashMap Text → Option ℕ
unfolding has get
probe zero id name m = none
probe (suc f) id name m =
    let next = probe f (add64 id 1) name m in
    elim (has m id) [
      | none ↦ none
      | some false ↦ some id
      | some true ↦ turn name id next (get m id)
    ]

-- The id of a name, which is registered under it
unfoldable pub register : ℕ → ℕ → Text → AtomicHashMap Text → Option (ℕ × AtomicHashMap Text)
unfolding probe put
register fuel hash name m = probe fuel hash name m >>= λ id. put m id name >>= λ m'. some (id, m')
