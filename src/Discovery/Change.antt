-- ===== src/Discovery/Change.antt =====
-- config/topology_change.h: what a manager tells the others.
pub mod Wire
pub mod Arrival
use cmw.Prelude.{ℕ}
use cmw.Discovery.Role.{RoleAttributes}

pub data ChangeType : Type 0 where
  change_node change_channel change_service change_participant : ChangeType

pub data OperateType : Type 0 where
  opt_join opt_leave : OperateType

pub data RoleType : Type 0 where
  role_node role_writer role_reader role_server role_client role_participant : RoleType

-- The number of a role
abbrev pub role_code : RoleType → ℕ
role_code role_node = 1
role_code role_writer = 2
role_code role_reader = 3
role_code role_server = 4
role_code role_client = 5
role_code role_participant = 6

pub record ChangeMsg : Type 0 where
  pub timestamp : ℕ
  pub change_type : ChangeType
  pub operate_type : OperateType
  pub role_type : RoleType
  pub role_attr : RoleAttributes
