-- ===== src/CommandService/Laws.antt =====
-- The durations that are accepted, and a device's limit.
use terra_server.Common.{ℕ, ◌*◌, ◌≤◌, ◌≡◌, ◌↔◌, some, arith}
use terra_server.Common.Int.{pos, negsuc}
use terra_server.Common.Json.{Value, number, boolean, other}
use terra_server.CommandService.{mist_min_ms, mist_request_max_ms, validate_mist_duration}

-- Exactly the whole numbers of milliseconds from one to twenty seconds are accepted.
pub validate_mist_duration_lem :
    (v : Value) (ms : ℕ)
    → (validate_mist_duration v ≡ some ms)
      ↔ ((v ≡ number (pos (ms * 10000))) × (mist_min_ms ≤ ms) × (ms ≤ mist_request_max_ms))
unfolding validate_mist_duration
validate_mist_duration_lem (number (pos n)) ms = (λ h. ground arith, λ h. ground arith)
validate_mist_duration_lem (number (negsuc n)) ms = (λ h. ground arith, λ h. ground arith)
validate_mist_duration_lem (boolean b) ms = (λ h. ground arith, λ h. ground arith)
validate_mist_duration_lem (other t) ms = (λ h. ground arith, λ h. ground arith)
