-- ===== src/Tests/Forwarding.antt =====
-- src/http_rewrite.c at concrete inputs.
use nexus_gateway.Base.{[], arith, bytes_eq, c_str, codes, refl, some, ◌∷◌, ◌≡◌}
use nexus_gateway.Config.{Config, config_get_custom_headers, copy_header, empty_config}
use nexus_gateway.Headers.{Headers, new_header}
use nexus_gateway.Headers.View.{IsValid, new_header-IsEntry, values_of}
use nexus_gateway.Rewrite.{rewrite_headers, via_value}
use nexus_gateway.Rewrite.Id.{generate_req_id, id_of, random32, read_id, read_id-generate_req_id}
use nexus_gateway.Rewrite.Script.{OnlyValue, last_value}
use nexus_gateway.Rewrite.Sound.{rewrite_headers-OnlyValue, rewrite_headers-values}
use nexus_gateway.Util.{to_lower}

-- What a client sends that wants to pass for another.
abbrev sent_headers : Headers
sent_headers =
    new_header (codes "x-real-ip") (codes "127.0.0.1")
    ∷ new_header (codes "via") (codes "proxy")
    ∷ new_header (codes "host") (codes "b")
    ∷ []

sent_headers-IsValid : IsValid sent_headers
sent_headers-IsValid = record {
  entries = (
    new_header-IsEntry (codes "x-real-ip") (codes "127.0.0.1") (omega arith),
    (
      new_header-IsEntry (codes "via") (codes "proxy") (omega arith),
      (new_header-IsEntry (codes "host") (codes "b") (omega arith), tt),
    ),
  );
  fits = omega arith;
}

-- One configured header.
abbrev custom_config : Config
custom_config = record empty_config { custom_headers = (codes "X-Env", codes "prod") ∷ [] }

abbrev rewritten : Headers
rewritten =
    rewrite_headers sent_headers (some (codes "10.1.2.3")) (some (codes "1.0.0"))
      (some custom_config) 1700000000000 3 4

rewrite_headers-OnlyValue_example :
    OnlyValue (codes "x-real-ip") (c_str (codes "10.1.2.3")) rewritten
    × OnlyValue (codes "x-forwarded-for") (c_str (codes "10.1.2.3")) rewritten
    × OnlyValue (codes "x-forwarded-proto") (c_str (codes "http")) rewritten
unfolding last_value config_get_custom_headers copy_header to_lower bytes_eq c_str
rewrite_headers-OnlyValue_example =
    rewrite_headers-OnlyValue sent_headers (some (codes "10.1.2.3")) (some (codes "1.0.0"))
      (some custom_config) 1700000000000 3 4 sent_headers-IsValid
      (refl, (refl, (refl, (refl, (refl, tt)))))

rewrite_headers-values_example :
    (values_of (codes "x-real-ip") rewritten ≡ c_str (codes "10.1.2.3") ∷ [])
    × (values_of (codes "x-forwarded-for") rewritten ≡ c_str (codes "10.1.2.3") ∷ [])
    × (values_of (codes "x-forwarded-proto") rewritten ≡ c_str (codes "http") ∷ [])
    × (values_of (codes "via") rewritten ≡ c_str (via_value (some (codes "1.0.0"))) ∷ [])
    × (values_of (codes "x-gateway-req-id") rewritten
        ≡ c_str (generate_req_id 16 1700000000000 3 4) ∷ [])
unfolding last_value config_get_custom_headers copy_header to_lower bytes_eq c_str
rewrite_headers-values_example =
    rewrite_headers-values sent_headers (some (codes "10.1.2.3")) (some (codes "1.0.0"))
      (some custom_config) 1700000000000 3 4 sent_headers-IsValid
      (refl, (refl, (refl, (refl, (refl, tt))))) (omega arith)

-- The numbers of the identifier: the timestamp behind the first 24 bits of the random number.
read_id-generate_req_id_example :
    read_id (generate_req_id 16 1700000000000 3 4) ≡ id_of 1700000000000 (random32 3 4)
read_id-generate_req_id_example = read_id-generate_req_id 1700000000000 3 4
