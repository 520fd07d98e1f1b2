-- ===== src/Discovery/Manager.antt =====
-- discovery/specific_manager/manager.cpp: joining and leaving the topology, and the changes of other
-- processes. The subclass has its own state and its own `Check` and `Dispose`. The clock is an argument;
-- what the listeners are told and what the RTPS writer sends are kept, in order; a remote change is
-- the message that its bytes hold.
pub mod Events
use cmw.Prelude.{
  ℕ, ◌%◌, ◌^◌, ◌≡◌, Bool, true, false, not, ◌&&◌, List, [], ◌∷◌, ◌++◌, ◌==◌, if◌then◌else◌,
}
use Prim.Native.Nat.{◌/◌}
use cmw.Prelude.Assoc.{Text, text_beq}
use cmw.Discovery.Graph.{is_dummy}
use cmw.Discovery.Role.{RoleAttributes}
use cmw.Discovery.Change.{
  ChangeMsg, ChangeType, OperateType, opt_join, opt_leave, RoleType, role_code,
}

-- `Convert` puts in the host and the process where they are missing.
abbrev pub filled : Text → ℕ → RoleAttributes → RoleAttributes
filled host process a = record a {
  host_name = if is_dummy a.host_name then host else a.host_name;
  process_id = if a.process_id == 0 then process else a.process_id;
}

-- What a subclass gives: its virtual functions, whose test does not look at the host or the process.
pub record Virtual (S : Type 0) : Type 0 where
  pub check : RoleAttributes → Bool
  pub dispose : ChangeMsg → S → S
  pub check_filled : (h : Text) (p : ℕ) (a : RoleAttributes) → check (filled h p a) ≡ check a

pub record Manager (S : Type 0) : Type 0 where
  pub is_shutdown : Bool
  pub is_discovery_started : Bool
  pub allowed_role : ℕ
  pub change_type : ChangeType
  pub host_name : Text
  pub process_id : ℕ
  pub has_writer : Bool
  pub own : S
  pub notified : List ChangeMsg
  pub sent : List ChangeMsg

-- `(1 << role) & allowed_role_`
abbrev pub is_allowed : ℕ → RoleType → Bool
is_allowed allowed role = (allowed / 2 ^ role_code role) % 2 == 1

module _ {S : Type 0} where
  unfoldable pub convert : ℕ → RoleAttributes → RoleType → OperateType → Manager S → ChangeMsg
  convert now attr role opt m = record {
    timestamp = now;
    change_type = m.change_type;
    operate_type = opt;
    role_type = role;
    role_attr = filled m.host_name m.process_id attr;
  }

  unfoldable pub notify : ChangeMsg → Manager S → Manager S
  notify msg m = record m { notified = m.notified ++ msg ∷ [] }

  unfoldable pub is_from_same_process : ChangeMsg → Manager S → Bool
  is_from_same_process msg m =
      if not (msg.role_attr.process_id == m.process_id)
      then false
      else if not (text_beq msg.role_attr.host_name m.host_name)
      then false
      else true

  unfoldable pub write : ChangeMsg → Manager S → Bool × Manager S
  write msg m =
      if not m.is_discovery_started
      then (false, m)
      else (true, if m.has_writer then record m { sent = m.sent ++ msg ∷ [] } else m)

  unfoldable pub stop_discovery : Manager S → Manager S
  stop_discovery m = if m.is_discovery_started then record m { is_discovery_started = false } else m

  unfoldable pub shutdown : Manager S → Manager S
  unfolding stop_discovery
  shutdown m = if m.is_shutdown then m else stop_discovery (record m { is_shutdown = true })

  module _ (v : Virtual S) where
    -- The subclass's `Dispose`, which ends with the notice.
    unfoldable pub dispose_msg : ChangeMsg → Manager S → Manager S
    unfolding notify
    dispose_msg msg m = notify msg (record m { own = v.dispose msg m.own })

    unfoldable pub join : ℕ → RoleAttributes → RoleType → Bool → Manager S → Bool × Manager S
    unfolding convert dispose_msg write
    join now attr role need_write m =
        let msg = convert now attr role opt_join m in
        let disposed = dispose_msg msg m in
        if m.is_shutdown
        then (false, m)
        else if not (is_allowed m.allowed_role role)
        then (false, m)
        else if not (v.check attr)
        then (false, m)
        else if need_write
        then write msg disposed
        else (true, disposed)

    -- `NeedPublish` is always true.
    unfoldable pub leave : ℕ → RoleAttributes → RoleType → Manager S → Bool × Manager S
    unfolding convert dispose_msg write
    leave now attr role m =
        let msg = convert now attr role opt_leave m in
        if m.is_shutdown
        then (false, m)
        else if not (is_allowed m.allowed_role role)
        then (false, m)
        else if not (v.check attr)
        then (false, m)
        else write msg (dispose_msg msg m)

    unfoldable pub on_remote_change : ChangeMsg → Manager S → Manager S
    unfolding is_from_same_process dispose_msg
    on_remote_change msg m =
        if m.is_shutdown
        then m
        else if is_from_same_process msg m
        then m
        else if not (v.check msg.role_attr)
        then m
        else dispose_msg msg m
