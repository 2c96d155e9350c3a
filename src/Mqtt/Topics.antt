-- ===== src/Mqtt/Topics.antt =====
-- backend/mqtt/topics.py, on the code points of a topic.
use terra_server.Common.{
  ℕ, ◌≡◌, refl, ap, ◌∙◌, Bool, true, false, ◌&&◌, Bool-cases, inl, inr, Option, none, some, List,
  [], ◌∷◌, ◌++◌, ◌==◌, if◌then◌else◌, All, arith,
}
use terra_server.Common.Text.{codes}
use terra_server.Scheduling.TimeOfDay.{split}

abbrev pub topic_prefix : List ℕ
topic_prefix = codes "esp32"

pub data Channel : Type 0 where
  telemetry command ack alert motion_event : Channel

abbrev pub channel_name : Channel → List ℕ
channel_name telemetry = codes "telemetry"
channel_name command = codes "command"
channel_name ack = codes "ack"
channel_name alert = codes "alert"
channel_name motion_event = codes "motion_event"

-- `topic_telemetry`, `topic_command`, `topic_ack` and `topic_alert`
abbrev pub topic_of : Channel → List ℕ → List ℕ
topic_of channel device_id = topic_prefix ++ (47 ∷ (device_id ++ (47 ∷ channel_name channel)))

abbrev pub same_codes : List ℕ → List ℕ → Bool
same_codes [] [] = true
same_codes (x ∷ xs) (y ∷ ys) = x == y && same_codes xs ys
same_codes _ _ = false

abbrev pub device_of : List (List ℕ) → Option (List ℕ)
device_of (prefix ∷ device_id ∷ kind ∷ []) =
    if same_codes prefix topic_prefix then some device_id else none
device_of _ = none

unfoldable pub parse_device_id : List ℕ → Option (List ℕ)
unfolding split
parse_device_id topic = device_of (split 47 topic)

-- A text without the separator.
abbrev pub Free : ℕ → List ℕ → Type 0
Free c xs = All (λ x. x == c ≡ false) xs

abbrev Parts : ℕ → List ℕ → Type 0
Parts c xs = (part : List ℕ) × ((parts : List (List ℕ)) × (split c xs ≡ part ∷ parts))

split-Parts : (c : ℕ) (xs : List ℕ) → Parts c xs
unfolding split
split-Parts c [] = ([], ([], refl))
split-Parts c (x ∷ xs) =
    let (part, (parts, e)) = split-Parts c xs in
    elim (Bool-cases (x == c)) [
      | inl h ↦ ([], (part ∷ parts, ground (arith, e, h)))
      | inr h ↦ (x ∷ part, (parts, ground (arith, e, h)))
    ]

split-Free : (c : ℕ) (xs : List ℕ) → Free c xs → split c xs ≡ xs ∷ []
unfolding split
split-Free c [] f = refl
split-Free c (x ∷ xs) (n, f) = let ih = split-Free c xs f in ground (arith, n, ih)

split-append : (c : ℕ) (xs ys : List ℕ) → Free c xs → split c (xs ++ (c ∷ ys)) ≡ xs ∷ split c ys
unfolding split
split-append c [] ys f = let (part, (parts, e)) = split-Parts c ys in ground (arith, e)
split-append c (x ∷ xs) ys (n, f) = let ih = split-append c xs ys f in ground (arith, n, ih)

channel-Free : (channel : Channel) → Free 47 (channel_name channel)
channel-Free telemetry = ground arith
channel-Free command = ground arith
channel-Free ack = ground arith
channel-Free alert = ground arith
channel-Free motion_event = ground arith

-- The device id of a topic that names it, on any channel, is read back if it holds no slash.
pub parse_device_id-topic_of :
    (channel : Channel) (device_id : List ℕ)
    → Free 47 device_id
    → parse_device_id (topic_of channel device_id) ≡ some device_id
unfolding parse_device_id
parse_device_id-topic_of channel device_id f =
    let one =
      split-append 47 topic_prefix (device_id ++ (47 ∷ channel_name channel)) (ground arith) in
    let two = split-append 47 device_id (channel_name channel) f in
    let three = split-Free 47 (channel_name channel) (channel-Free channel) in
    ap device_of (one ∙ ap (λ x. topic_prefix ∷ x) (two ∙ ap (λ x. device_id ∷ x) three))
