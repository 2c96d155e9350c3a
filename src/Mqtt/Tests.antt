-- ===== src/Mqtt/Tests.antt =====
-- backend/mqtt/topics.py and registry.py: concrete topics and lists, and the theorems at concrete
-- inputs.
use terra_server.Common.{false, ◌⊎◌, ◌≡◌, ◌↔◌, refl, true, none, some, [], ◌∷◌, All, arith}
use terra_server.Common.Text.{codes}
use terra_server.Scheduling.TimeOfDay.{split}
use terra_server.Mqtt.Topics.{
  command, telemetry, ack, alert, topic_of, parse_device_id, parse_device_id-topic_of,
}
use terra_server.Mqtt.Registry.{
  register, regen_acl, reload, device_blocks, member, acl_block, build_acl_content, register_device,
}
use terra_server.Mqtt.Access.{IsConfined, build_acl_content-IsConfined, register_device-installs}

other_prefix : parse_device_id (codes "esp8266/a/ack") ≡ none
unfolding parse_device_id split
other_prefix = refl

too_long : parse_device_id (codes "esp32/a/b/ack") ≡ none
unfolding parse_device_id split
too_long = refl

reads_back_a_topic : parse_device_id (topic_of command (codes "terra-a1")) ≡ some (codes "terra-a1")
reads_back_a_topic = parse_device_id-topic_of command (codes "terra-a1") (ground arith)

-- A hub is a camera and a device, with one block.
hub_once :
    device_blocks ("hub" ∷ []) ("hub" ∷ "dev" ∷ [])
    ≡ acl_block "dev" (telemetry ∷ ack ∷ alert ∷ []) (command ∷ []) ∷ []
unfolding device_blocks member
hub_once = refl

build_acl_content-IsConfined_example :
    All (IsConfined "bridge") (build_acl_content "bridge" ("hub" ∷ []) ("hub" ∷ "dev" ∷ []))
build_acl_content-IsConfined_example =
    build_acl_content-IsConfined "bridge" ("hub" ∷ []) ("hub" ∷ "dev" ∷ [])

register_device-installs_example :
    let (calls, ok) = register_device (λ call. true) true [] "dev" "secret" in
    ok ≡ true ↔ (
      ((true ≡ false) × (calls ≡ []))
      ⊎ ((true ≡ true)
          × (calls ≡ register "dev" "secret" ∷ regen_acl [] ∷ reload ∷ [])
          × (true ≡ true)
          × (true ≡ true)
          × (true ≡ true)))
register_device-installs_example = register_device-installs (λ call. true) true [] "dev" "secret"
