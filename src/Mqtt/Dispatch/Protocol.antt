-- ===== src/Mqtt/Dispatch/Protocol.antt =====
-- The published message keeps the fields of the protocol, whatever the payload holds.
use terra_server.Common.{
  ℕ, ◌*◌, ◌/◌, ◌≡◌, refl, ◌∙◌, String, true, false, Option, none, some, [], or_else, arith,
}
use terra_server.Common.Int.{ℤ, pos}
use terra_server.Common.Json.{
  number, other, Object, get, update, without, contains_key, get-put, get-update, get-without,
  get-without-none,
}
use terra_server.Common.Text.{str_eq}
use terra_server.TempOffset.{user_key}
use terra_server.Mqtt.Dispatch.{Row, ttl_of}
use terra_server.Mqtt.Dispatch.Message.{
  header, with_burst, with_offset, publish_payload, reserved_payload_keys, server_only_payload_keys,
}

-- The fields of the protocol as the server sets them, and none of the fields that it keeps.
pub record IsServers (row : Row) (issued : ℕ) (message : Object) : Type 0 where
  pub msg_id : get "msg_id" message ≡ some (other row.id)
  pub issued_at : get "issued_at" message ≡ some (number (pos (issued / 1000000 * 10000)))
  pub ttl_sec : get "ttl_sec" message ≡ some (number (pos (ttl_of row.ttl_sec * 10000)))
  pub action : get "action" message ≡ some (other row.action)
  pub lcd_text : get "lcd_text" message ≡ none
  pub user_offset : get user_key message ≡ none

get-with_burst :
    (key : String) (split : Option (ℕ × ℕ)) (d : Object)
    → str_eq "duration_ms" key ≡ false
    → get key (with_burst split d) ≡ get key d
get-with_burst key none d h = refl
get-with_burst key (some (burst, rest)) d h =
    let p = get-put "duration_ms" key (number (pos (burst * 10000))) d in ground (arith, p)

get-with_offset :
    (key : String) (offset : Option ℤ) (d : Object)
    → str_eq "offset_c" key ≡ false
    → get key (with_offset offset d) ≡ get key d
get-with_offset key none d h = refl
get-with_offset key (some c) d h = let p = get-put "offset_c" key (number c) d in ground (arith, p)

-- A key that no part of the payload may set.
get-publish_payload :
    (row : Row) (issued : ℕ) (split : Option (ℕ × ℕ)) (offset : Option ℤ) (key : String)
    → str_eq "duration_ms" key ≡ false
    → str_eq "offset_c" key ≡ false
    → get key
        (without server_only_payload_keys (without reserved_payload_keys (or_else row.payload [])))
      ≡ none
    → get key (publish_payload row issued split offset) ≡ get key (header row issued)
unfolding publish_payload
get-publish_payload row issued split offset key d o h =
    let safe =
      without server_only_payload_keys (without reserved_payload_keys (or_else row.payload [])) in
    get-with_offset key offset (with_burst split (update (header row issued) safe)) o
    ∙ get-with_burst key split (update (header row issued) safe) d
    ∙ get-update key (header row issued) safe h

pub publish_payload-IsServers :
    (row : Row) (issued : ℕ) (split : Option (ℕ × ℕ)) (offset : Option ℤ)
    → IsServers row issued (publish_payload row issued split offset)
unfolding get contains_key
publish_payload-IsServers row issued split offset =
    let extra = or_else row.payload [] in
    let reserved : (key : String)
        → contains_key reserved_payload_keys key ≡ true
        → get key (without server_only_payload_keys (without reserved_payload_keys extra)) ≡ none =
      λ key h.
        get-without-none server_only_payload_keys key (without reserved_payload_keys extra)
          (get-without reserved_payload_keys key extra h) in
    let kept : (key : String)
        → contains_key server_only_payload_keys key ≡ true
        → get key (without server_only_payload_keys (without reserved_payload_keys extra)) ≡ none =
      λ key h. get-without server_only_payload_keys key (without reserved_payload_keys extra) h in
    record {
      msg_id =
          get-publish_payload row issued split offset "msg_id" refl refl (reserved "msg_id" refl);
      issued_at =
          get-publish_payload row issued split offset "issued_at" refl refl
            (reserved "issued_at" refl);
      ttl_sec =
          get-publish_payload row issued split offset "ttl_sec" refl refl (reserved "ttl_sec" refl);
      action =
          get-publish_payload row issued split offset "action" refl refl (reserved "action" refl);
      lcd_text =
          get-publish_payload row issued split offset "lcd_text" refl refl (kept "lcd_text" refl);
      user_offset =
          get-publish_payload row issued split offset user_key refl refl (kept user_key refl);
    }
