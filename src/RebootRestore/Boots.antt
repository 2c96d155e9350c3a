-- ===== src/RebootRestore/Boots.antt =====
-- Proofs about the messages of one boot of a device.
use terra_server.Common.{
  ℕ, ◌+◌, ◌-◌, ◌≤◌, ◌≡◌, refl, Option, none, some, List, [], ◌∷◌, if◌then◌else◌, All, arith,
}
use terra_server.RebootRestore.{boot_tolerance_sec, note_uptime}

-- How many messages, each with its time and uptime, are taken for a new boot.
unfoldable pub boots : List (ℕ × ℕ) → Option ℕ → ℕ
unfolding note_uptime
boots [] last = 0
boots ((now, uptime) ∷ msgs) last =
    let (last', fresh) = note_uptime now uptime last in
    let rest = boots msgs last' in if fresh then 1 + rest else rest

-- The message's estimate of the boot is at most the tolerance after `boot`.
abbrev pub IsNear : ℕ → ℕ × ℕ → Type 0
IsNear boot m = (boot ≤ m.0 - m.1) × (m.0 - m.1 ≤ boot + boot_tolerance_sec)

boots-seen :
    (boot last : ℕ) (msgs : List (ℕ × ℕ))
    → boot ≤ last
    → All (IsNear boot) msgs
    → boots msgs (some last) ≡ 0
unfolding boots note_uptime
boots-seen boot last [] h a = refl
boots-seen boot last (m ∷ msgs) h (n, a) =
    let ih = boots-seen boot last msgs h a in ground (arith, ih)

-- Messages of one boot, their estimates within the tolerance of it, are taken for a new boot at most
-- once, whatever was known of the device before.
pub boots-le-one :
    (boot : ℕ) (last : Option ℕ) (msgs : List (ℕ × ℕ))
    → All (IsNear boot) msgs
    → boots msgs last ≤ 1
unfolding boots note_uptime
boots-le-one boot last [] a = omega arith
boots-le-one boot none (m ∷ msgs) (n, a) =
    let seen = boots-seen boot (m.0 - m.1) msgs n.0 a in ground (arith, seen)
boots-le-one boot (some last) (m ∷ msgs) (n, a) =
    let seen = boots-seen boot (m.0 - m.1) msgs n.0 a in
    let ih = boots-le-one boot (some last) msgs a in ground (arith, seen, ih)
