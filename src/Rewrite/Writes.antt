-- ===== src/Rewrite/Writes.antt =====
-- src/http_rewrite.c: the rewriting as a sequence of writes to the cleaned table.
use nexus_gateway.Base.{
  Bytes, List, Option, Option-cases, [], ap, bytes_eq, c_str, codes, inl, inr, none, refl, some,
  sym, ℕ, ◌++◌, ◌∙◌, ◌∷◌, ◌≡◌,
}
use nexus_gateway.Config.{Config}
use nexus_gateway.Headers.{Headers, headers_get}
use nexus_gateway.Headers.View.{IsValid, headers_remove-IsValid}
use nexus_gateway.Rewrite.{
  add_custom, clean_headers, custom_of, forward_host, or_default, proxy_headers, rewrite_headers,
  set_header, via_value,
}
use nexus_gateway.Rewrite.Id.{generate_req_id}
use nexus_gateway.Rewrite.Script.{last_value}
use nexus_gateway.Util.{to_lower}

-- The writes of `forward_host`, given the headers that it reads.
unfoldable pub host_script : Headers → List (Bytes × Bytes)
host_script h = elim (headers_get h (codes "Host")) [
  | none ↦ []
  | some host ↦ (codes "X-Forwarded-Host", host) ∷ []
]

-- The first two writes.
abbrev pub address_script : Bytes → List (Bytes × Bytes)
address_script ip = (codes "X-Real-IP", ip) ∷ (codes "X-Forwarded-For", ip) ∷ []

abbrev pub gateway_script : Option Bytes → Bytes → List (Bytes × Bytes)
gateway_script version id =
    (codes "X-Forwarded-Proto", codes "http")
    ∷ (codes "Via", via_value version)
    ∷ (codes "X-Gateway-Req-Id", id)
    ∷ []

-- All the writes behind the cleaning, in order.
unfoldable pub rewrite_script :
    Headers → Option Bytes → Option Bytes → Option Config → ℕ → ℕ → ℕ → List (Bytes × Bytes)
rewrite_script h client_ip version cfg timestamp rand1 rand2 =
    let ip = or_default client_ip (codes "unknown") in
    let seen = add_custom (clean_headers h) (address_script ip) in
    address_script ip
    ++ (host_script seen
        ++ (gateway_script version (generate_req_id 16 timestamp rand1 rand2) ++ custom_of cfg))

pub add_custom-append :
    (a b : List (Bytes × Bytes)) (h : Headers)
    → add_custom h (a ++ b) ≡ add_custom (add_custom h a) b
unfolding add_custom
add_custom-append [] b h = refl
add_custom-append ((name, value) ∷ a) b h = add_custom-append a b (set_header h name value)

pub forward_host-script : (h : Headers) → forward_host h ≡ add_custom h (host_script h)
unfolding forward_host host_script add_custom
forward_host-script h = elim (Option-cases (headers_get h (codes "Host"))) [
  | inl e ↦ rw (e, forward_host, host_script)
  | inr (host, e) ↦ rw (e, forward_host, host_script)
]

pub clean_headers-IsValid : (h : Headers) → IsValid h → IsValid (clean_headers h)
unfolding clean_headers
clean_headers-IsValid h v =
    headers_remove-IsValid _ _
      (headers_remove-IsValid _ _ (headers_remove-IsValid _ _ (headers_remove-IsValid h _ v)))

-- The rewriting is that sequence of writes to the cleaned table.
pub rewrite_headers-script :
    (h : Headers) (client_ip version : Option Bytes) (cfg : Option Config) (t r1 r2 : ℕ)
    → rewrite_headers h client_ip version cfg t r1 r2
      ≡ add_custom (clean_headers h) (rewrite_script h client_ip version cfg t r1 r2)
unfolding rewrite_headers rewrite_script proxy_headers add_custom
rewrite_headers-script h client_ip version cfg t r1 r2 =
    let ip = or_default client_ip (codes "unknown") in
    let seen = add_custom (clean_headers h) (address_script ip) in
    let rest = gateway_script version (generate_req_id 16 t r1 r2) ++ custom_of cfg in
    sym (
      add_custom-append (host_script seen) rest seen
      ∙ ap (λ x. add_custom x rest) (sym (forward_host-script seen)))

pub last_value-append :
    (m : Bytes) (a b : List (Bytes × Bytes))
    → last_value m b ≡ none
    → last_value m (a ++ b) ≡ last_value m a
unfolding last_value
last_value-append m [] b e = e
last_value-append m ((name, value) ∷ a) b e = rw (last_value-append m a b e)

-- The gateway's own writes, before the custom ones.
abbrev pub own_script : Bytes → List (Bytes × Bytes) → Option Bytes → Bytes → List (Bytes × Bytes)
own_script ip hosts version id = address_script ip ++ (hosts ++ gateway_script version id)

-- What the gateway's own writes say of each of its names, whatever host is forwarded.
pub own_values :
    (ip : Bytes) (h : Headers) (version : Option Bytes) (id : Bytes)
    → (last_value (codes "x-real-ip") (own_script ip (host_script h) version id) ≡ some ip)
      × (last_value (codes "x-forwarded-for") (own_script ip (host_script h) version id) ≡ some ip)
      × (last_value (codes "x-forwarded-proto") (own_script ip (host_script h) version id)
          ≡ some (codes "http"))
      × (last_value (codes "via") (own_script ip (host_script h) version id)
          ≡ some (via_value version))
      × (last_value (codes "x-gateway-req-id") (own_script ip (host_script h) version id) ≡ some id)
unfolding last_value host_script bytes_eq c_str to_lower
own_values ip h version id = elim (Option-cases (headers_get h (codes "Host"))) [
  | inl e ↦ rw (e, host_script) (refl, refl, refl, refl, refl)
  | inr (host, e) ↦ rw (e, host_script) (refl, refl, refl, refl, refl)
]
