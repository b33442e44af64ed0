-- ===== src/Ble/Device.antt =====
-- main/protocol/ble_cmd_parser.c, fw_ble_legacy_context.c, base/net/tcp/tcp_server.c and
-- base/ble/ble_gatt_server.c: the state that the commands of the phone change, and what they find.
use miri_tool_v.Base.{
  ℕ, ◌/◌, ◌%◌, ◌^◌, Bool, ◌&&◌, ◌||◌, not, Bytes, List, [], ◌∷◌, ◌++◌, Option, length, take, u8,
  ◌==◌, if◌then◌else◌,
}
use miri_tool_v.FwState.{FwStep, set_step, text}
use miri_tool_v.Role.{Role, ble, no_role, fw_upload, same_role, Roles, request, clear}
use miri_tool_v.Hht.Main.{Link}
use miri_tool_v.Hht.Keys.{Keys}
use miri_tool_v.ProbeLink.Protocol.{hex_digit}
use miri_tool_v.Card.{Files}
use miri_tool_v.Worker.{Worker, Memory, worker_start}
use miri_tool_v.Manager.Run.{Place}

-- A command with its payload, to the phone.
pub record Frame : Type 0 where
  pub cmd : ℕ
  pub payload : Bytes

-- `s_ctx` of fw_ble_legacy_context.c
pub record Legacy : Type 0 where
  pub file_name : Bytes
  pub file_type : Bytes
  pub expected_size : ℕ

-- What the TCP server is to receive.
pub record Pending : Type 0 where
  pub name : Bytes
  pub type : Bytes
  pub expected : ℕ

pub record Device : Type 0 where
  pub roles : Roles
  pub keys : Keys
  pub last_fw_type : Bytes
  pub legacy : Legacy
  pub pending : Pending
  pub alias : Bytes
  pub worker : Worker
  pub fat_files : Files
  pub sent : List Frame
  pub restarts : ℕ

-- A regular file of the internal flash, and its size.
pub record FatEntry : Type 0 where
  pub name : Bytes
  pub size : ℕ

-- What a command finds: the line to the terminal, the card and its directory, the addresses and the
-- time of the device, the version, and how the calls of the drivers come out.
pub record Env : Type 0 where
  pub link : Link
  pub place : Place
  pub mac : Bytes
  pub timestamp : ℕ
  pub bt_mac : Bytes
  pub version : Bytes
  pub gap_name : Bytes
  pub flash_name : Bytes
  pub rename_error : Option Bytes
  pub card_formats : Bool
  pub fat_entries : Option (List FatEntry)
  pub fat_ready : Bool
  pub fat_formats : Bool

-- `ble_protocol_send_cmd`: the length is handed on as a byte.
unfoldable pub send_cmd : ℕ → Bytes → Device → Device
send_cmd cmd payload d = record d {
  sent = d.sent ++ record { cmd = cmd; payload = take (u8 (length payload)) payload } ∷ [];
}

-- `fw_upload_start` of core/firmware_upload/fw_upload.c
abbrev pub fw_upload_start : Memory → Worker → Worker
fw_upload_start memory w =
    (worker_start memory
      (record w { fw = set_step FwStep.prepare (text "firmware update role active") w.fw })).worker

-- The role that is started is none of those that the dispatcher ignores.
abbrev pub is_switched : Role → Roles → Bool
is_switched role r = not (same_role role no_role) && not (same_role role r.active)

abbrev pub request_role : Env → Role → Device → Device
request_role env role d = record d {
  roles = request env.link role ble d.roles;
  worker =
      if same_role role fw_upload && is_switched role d.roles
      then fw_upload_start env.place.memory d.worker
      else d.worker;
}

abbrev pub clear_role : Device → Device
clear_role d = record d { roles = clear d.roles }

unfoldable pub legacy_set_type : Bytes → Legacy → Legacy
legacy_set_type type c = record c { file_type = take 7 type }

unfoldable pub legacy_set_expected_size : ℕ → Legacy → Legacy
legacy_set_expected_size size c = record c { expected_size = size }

unfoldable pub legacy_set_file_name : Bytes → Legacy → Legacy
legacy_set_file_name name c = record c { file_name = take 63 name }

-- `fw_ble_legacy_get_snapshot` into buffers of the sizes: the texts, the size, and its result.
pub record Snapshot : Type 0 where
  pub name : Bytes
  pub type : Bytes
  pub size : ℕ
  pub has_any : Bool

unfoldable pub legacy_get_snapshot : ℕ → ℕ → Legacy → Snapshot
legacy_get_snapshot name_size type_size c = record {
  name = take name_size c.file_name;
  type = take type_size c.file_type;
  size = c.expected_size;
  has_any = not (length c.file_name == 0) || not (length c.file_type == 0);
}

abbrev pub set_pending_file : Bytes → Bytes → Pending → Pending
set_pending_file name type p = record p { name = take 63 name; type = take 7 type }

abbrev pub has_pending : Pending → Bool
has_pending p = not (length p.name == 0) && not (length p.type == 0)

-- `%02x` and `%08x`
abbrev pub hex2 : ℕ → Bytes
hex2 b = hex_digit (b / 16 % 16) ∷ hex_digit (b % 16) ∷ []

abbrev pub hex8 : ℕ → Bytes
hex8 n =
    hex2 (n / 2 ^ 24 % 256)
    ++ (hex2 (n / 2 ^ 16 % 256) ++ (hex2 (n / 2 ^ 8 % 256) ++ hex2 (n % 256)))

abbrev pub hex_of : Bytes → Bytes
hex_of [] = []
hex_of (b ∷ bs) = hex2 b ++ hex_of bs

-- `ble_build_default_ota_name` into 64 bytes.
unfoldable pub default_ota_name : Env → Bytes
default_ota_name env =
    take 63 (text "ota_" ++ (hex_of (take 6 env.mac) ++ (b'_' ∷ hex8 env.timestamp)))

-- `runtime_config_get_device_name` and `ble_current_name`
abbrev pub device_name : Env → Device → Bytes
device_name env d = if length d.alias == 0 then env.flash_name else d.alias

abbrev pub current_name : Env → Device → Bytes
current_name env d = if length env.gap_name == 0 then device_name env d else env.gap_name
