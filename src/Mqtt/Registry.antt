-- ===== src/Mqtt/Registry.antt =====
-- backend/mqtt/registry.py: the access list of the broker, one block for a client, and the helper
-- program that installs it. What the helper answers to a call is an argument.
use terra_server.Common.{String, Bool, true, false, not, ◌||◌, List, [], ◌∷◌, ◌++◌, if◌then◌else◌}
use terra_server.Common.Text.{str_eq}
use terra_server.Mqtt.Topics.{Channel, telemetry, command, ack, alert, motion_event}

-- A line of a block: `topic write esp32/<client>/<channel>`, and so on.
pub data Rule : Type 0 where
  write read : String → Channel → Rule
  readwrite_all : Rule

pub record Block : Type 0 where
  pub user : String
  pub rules : List Rule

abbrev pub writes_of : String → List Channel → List Rule
writes_of client [] = []
writes_of client (w ∷ ws) = write client w ∷ writes_of client ws

abbrev pub reads_of : String → List Channel → List Rule
reads_of client [] = []
reads_of client (r ∷ rs) = read client r ∷ reads_of client rs

unfoldable pub acl_block : String → List Channel → List Channel → Block
acl_block client writes reads = record {
  user = client;
  rules = writes_of client writes ++ reads_of client reads;
}

-- The bridge's user, where the environment names one.
unfoldable pub bridge_block : String → List Block
bridge_block bridge_user =
    if str_eq bridge_user ""
    then []
    else record { user = bridge_user; rules = readwrite_all ∷ [] } ∷ []

unfoldable pub camera_blocks : List String → List Block
unfolding acl_block
camera_blocks [] = []
camera_blocks (c ∷ cs) =
    acl_block c (telemetry ∷ motion_event ∷ ack ∷ alert ∷ []) (command ∷ []) ∷ camera_blocks cs

unfoldable pub member : List String → String → Bool
member [] x = false
member (y ∷ ys) x = str_eq x y || member ys x

-- A device that is a camera too has its block already.
unfoldable pub device_blocks : List String → List String → List Block
unfolding acl_block member
device_blocks cameras [] = []
device_blocks cameras (d ∷ ds) =
    let rest = device_blocks cameras ds in
    if member cameras d
    then rest
    else acl_block d (telemetry ∷ ack ∷ alert ∷ []) (command ∷ []) ∷ rest

unfoldable pub build_acl_content : String → List String → List String → List Block
unfolding bridge_block camera_blocks device_blocks
build_acl_content bridge_user cameras devices =
    bridge_block bridge_user ++ (camera_blocks cameras ++ device_blocks cameras devices)

pub data Call : Type 0 where
  register : String → String → Call
  unregister : String → Call
  regen_acl : List Block → Call
  reload : Call

-- The calls made, in order, and the answer.
unfoldable pub regenerate_acl : (Call → Bool) → Bool → List Block → List Call × Bool
regenerate_acl helper enabled content =
    if not enabled
    then ([], true)
    else if helper (regen_acl content)
    then (regen_acl content ∷ reload ∷ [], helper reload)
    else (regen_acl content ∷ [], false)

unfoldable pub register_device :
    (Call → Bool) → Bool → List Block → String → String → List Call × Bool
unfolding regenerate_acl
register_device helper enabled content device_id token =
    let (calls, ok) = regenerate_acl helper enabled content in
    if not enabled
    then ([], true)
    else if helper (register device_id token)
    then (register device_id token ∷ calls, ok)
    else (register device_id token ∷ [], false)

unfoldable pub unregister_device : (Call → Bool) → Bool → List Block → String → List Call × Bool
unfolding regenerate_acl
unregister_device helper enabled content device_id =
    let (calls, ok) = regenerate_acl helper enabled content in
    if not enabled then ([], true) else (unregister device_id ∷ calls, ok)
