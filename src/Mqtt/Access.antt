-- ===== src/Mqtt/Access.antt =====
-- Who may use which topic.
use terra_server.Common.{
  String, ◌≡◌, ◌≢◌, ◌↔◌, refl, Bool, true, false, ◌⊎◌, inl, inr, List, [], ◌∷◌, ◌++◌, All, if_rule,
  arith,
}
use terra_server.Common.Text.{str_eq}
use terra_server.Mqtt.Topics.{command}
use terra_server.Mqtt.Registry.{
  Rule, write, read, readwrite_all, Block, acl_block, bridge_block, camera_blocks, device_blocks,
  member, build_acl_content, Call, register, regen_acl, reload, register_device, regenerate_acl,
}

-- A rule that lets a client use its own topics only.
abbrev pub IsOwn : String → Rule → Type 0
IsOwn user (write client channel) = (client ≡ user) × (channel ≢ command)
IsOwn user (read client channel) = (client ≡ user) × (channel ≡ command)
IsOwn user readwrite_all = ⊥

-- The bridge, or a client with its own topics.
abbrev pub IsConfined : String → Block → Type 0
IsConfined bridge_user b = (b.user ≡ bridge_user) ⊎ All (IsOwn b.user) b.rules

All-join : (P : Block → Type 0) (xs ys : List Block) → All P xs → All P ys → All P (xs ++ ys)
All-join P [] ys a b = b
All-join P (x ∷ xs) ys (p, a) b = (p, All-join P xs ys a b)

bridge_block-IsConfined :
    (bridge_user : String) → All (IsConfined bridge_user) (bridge_block bridge_user)
unfolding bridge_block
bridge_block-IsConfined bridge_user =
    if_rule {A = List Block} (All (IsConfined bridge_user)) (str_eq bridge_user "") (λ e. tt)
      (λ e. (inl refl, tt))

camera_blocks-IsConfined :
    (bridge_user : String) (cameras : List String)
    → All (IsConfined bridge_user) (camera_blocks cameras)
unfolding camera_blocks acl_block
camera_blocks-IsConfined bridge_user [] = tt
camera_blocks-IsConfined bridge_user (c ∷ cs) =
    let ih = camera_blocks-IsConfined bridge_user cs in
    (
      inr (
        (refl, ground arith),
        ((refl, ground arith), ((refl, ground arith), ((refl, ground arith), ((refl, refl), tt)))),
      ),
      ih,
    )

device_blocks-IsConfined :
    (bridge_user : String) (cameras devices : List String)
    → All (IsConfined bridge_user) (device_blocks cameras devices)
unfolding device_blocks acl_block
device_blocks-IsConfined bridge_user cameras [] = tt
device_blocks-IsConfined bridge_user cameras (d ∷ ds) =
    let ih = device_blocks-IsConfined bridge_user cameras ds in
    if_rule {A = List Block} (All (IsConfined bridge_user)) (member cameras d) (λ e. ih)
      (λ e. (
        inr (
          (refl, ground arith),
          ((refl, ground arith), ((refl, ground arith), ((refl, refl), tt))),
        ),
        ih,
      ))

-- In the whole access list every block other than the bridge's lets its client write only its own
-- topics and never its commands, and read only its own commands.
pub build_acl_content-IsConfined :
    (bridge_user : String) (cameras devices : List String)
    → All (IsConfined bridge_user) (build_acl_content bridge_user cameras devices)
unfolding build_acl_content
build_acl_content-IsConfined bridge_user cameras devices =
    All-join (IsConfined bridge_user) (bridge_block bridge_user)
      (camera_blocks cameras ++ device_blocks cameras devices) (bridge_block-IsConfined bridge_user)
      (All-join (IsConfined bridge_user) (camera_blocks cameras) (device_blocks cameras devices)
        (camera_blocks-IsConfined bridge_user cameras)
        (device_blocks-IsConfined bridge_user cameras devices))

-- A registration is reported as done exactly when the registry is disabled and no call was made, or
-- it is enabled and the three calls were made in order and each succeeded: the password, the access
-- list, the reload.
pub register_device-installs :
    (helper : Call → Bool) (enabled : Bool) (content : List Block) (device_id token : String)
    → let (calls, ok) = register_device helper enabled content device_id token in
      ok ≡ true ↔ (
        ((enabled ≡ false) × (calls ≡ []))
        ⊎ ((enabled ≡ true)
            × (calls ≡ register device_id token ∷ regen_acl content ∷ reload ∷ [])
            × (helper (register device_id token) ≡ true)
            × (helper (regen_acl content) ≡ true)
            × (helper reload ≡ true)))
unfolding register_device regenerate_acl
register_device-installs helper true content device_id token =
    (λ h. inr (refl, ground arith, ground arith, ground arith, ground arith), λ h. ground arith)
register_device-installs helper false content device_id token = (λ h. inl (refl, refl), λ h. refl)
