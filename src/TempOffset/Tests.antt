-- ===== src/TempOffset/Tests.antt =====
-- backend/temp_offset.py: concrete payloads, and the theorem at a concrete input.
use terra_server.Common.{◌≡◌, refl, some, [], ◌∷◌}
use terra_server.Common.Int.{pos, negsuc}
use terra_server.Common.Json.{number, get}
use terra_server.TempOffset.{
  user_key, device_key, default_base_c, round_2, round_2_ℕ, device_value, invalid_payload,
  resolve_device_offset,
}
use terra_server.TempOffset.Laws.{Comes, resolve_device_offset-Comes}

half_degree :
    resolve_device_offset default_base_c (some ((user_key, number (pos 5000)) ∷ []))
    ≡ device_value (negsuc 9999)
unfolding resolve_device_offset get round_2_ℕ
half_degree = refl

-- 11.504 degrees: the sum of 10.004 is sent as 10.00, and within the limit.
at_the_limit :
    resolve_device_offset default_base_c (some ((user_key, number (pos 115040)) ∷ []))
    ≡ device_value (pos 100000)
unfolding resolve_device_offset get round_2_ℕ
at_the_limit = refl

ties_to_even : (round_2 (pos 10050) ≡ pos 10000) × (round_2 (negsuc 10149) ≡ negsuc 10199)
unfolding round_2_ℕ
ties_to_even = (refl, refl)

both :
    resolve_device_offset default_base_c
      (some ((user_key, number (pos 5000)) ∷ (device_key, number (pos 5000)) ∷ []))
    ≡ invalid_payload
unfolding resolve_device_offset get
both = refl

resolve_device_offset-Comes_example :
    Comes default_base_c
      (get user_key ((user_key, number (pos 5000)) ∷ []))
      (get device_key ((user_key, number (pos 5000)) ∷ []))
      (resolve_device_offset default_base_c (some ((user_key, number (pos 5000)) ∷ [])))
resolve_device_offset-Comes_example =
    resolve_device_offset-Comes default_base_c ((user_key, number (pos 5000)) ∷ [])
