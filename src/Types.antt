-- ===== src/Types.antt =====
-- The data that components exchange: server/rmt_server.h, and the messages of idl/*.idl.
use rmt_library.Common.{ℕ, Bool, true, false, Bytes, Option, none, ℤ, pos, List}

-- `device_info`
pub record DeviceInfo : Type 0 where
  pub device_id : ℕ
  pub model : Bytes
  pub host : Bytes
  pub ip : Bytes
  pub mac : Bytes
  pub rmt_version : Bytes
  pub devinfo : Bytes

-- `DeviceInfo_Msg`, which an agent publishes; it has the fields of `device_info`.
abbrev pub DeviceMsg : Type 0
DeviceMsg = DeviceInfo

-- `CONFIG_KEY_STR_LEN`
abbrev pub config_key_str_len : ℕ
config_key_str_len = 4096

-- `data_info`
pub record DataInfo : Type 0 where
  pub device_id : ℕ
  pub value_list : Bytes

-- a `data_info` that a client gets back: its array holds a text, or, where it is `none`, no terminator
pub record Entry : Type 0 where
  pub device_id : ℕ
  pub value_list : Option Bytes

-- `transfer_result`; `none` is a null `pFile`.
pub record TransferResult : Type 0 where
  pub result : ℤ
  pub file : Option Bytes
  pub file_len : ℕ

-- `empty_result`, as `devinfo_server_init` leaves it (and as static storage begins).
abbrev pub empty_result : TransferResult
empty_result = record { result = pos 0; file = none; file_len = 0 }

-- `transfer_status`
pub data TransferStatus : Type 0 where
  status_done status_running status_server_error status_agent_error : TransferStatus

-- `dev_status == STATUS_RUNNING`
abbrev pub is_running : TransferStatus → Bool
is_running status_running = true
is_running _ = false

-- `DataInfo::TYPE`
pub data RequestType : Type 0 where
  get set set_same_value import export : RequestType

abbrev pub type_eq : RequestType → RequestType → Bool
type_eq get get = true
type_eq set set = true
type_eq set_same_value set_same_value = true
type_eq import import = true
type_eq export export = true
type_eq _ _ = false

-- `DataInfo_Request`
pub record Request : Type 0 where
  pub id_list : List ℕ
  pub type : RequestType
  pub random_seq : ℕ
  pub msg : Bytes
  pub binary : Bytes

-- `DataInfo_Reply`
pub record Reply : Type 0 where
  pub device_id : ℕ
  pub type : RequestType
  pub random_seq : ℕ
  pub msg : Bytes
  pub binary : Bytes

-- `g_rmt_runtime_cfg`
pub record Runtime : Type 0 where
  pub net_interface : Bytes
  pub net_ip : Bytes
