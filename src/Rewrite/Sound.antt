-- ===== src/Rewrite/Sound.antt =====
-- src/http_rewrite.c: what the next hop reads in the headers of a rewritten request.
use mathlib.Core.List.{append_assoc}
use nexus_gateway.Base.{
  All, Bytes, List, Option, [], ap, arith, c_str, codes, length, length-append, none, some, ℕ, ◌++◌,
  ◌+◌, ◌∙◌, ◌∷◌, ◌≡◌, ◌≤◌,
}
use nexus_gateway.Config.{Config}
use nexus_gateway.Headers.{Headers, header_max, headers_remove}
use nexus_gateway.Headers.View.{IsValid, values_of}
use nexus_gateway.Rewrite.{
  add_custom, clean_headers, custom_of, or_default, rewrite_headers, via_value,
}
use nexus_gateway.Rewrite.Id.{generate_req_id}
use nexus_gateway.Rewrite.Script.{
  OnlyValue, OnlyValue-add_custom, last_value, length-headers_remove, overlay, values_of-add_custom,
}
use nexus_gateway.Rewrite.Writes.{
  address_script, clean_headers-IsValid, gateway_script, host_script, last_value-append, own_script,
  own_values, rewrite_headers-script, rewrite_script,
}

-- The names that the gateway writes with values of its own.
abbrev pub own_names : List Bytes
own_names =
    codes "x-real-ip"
    ∷ codes "x-forwarded-for"
    ∷ codes "x-forwarded-proto"
    ∷ codes "via"
    ∷ codes "x-gateway-req-id"
    ∷ []

-- The configured headers leave those names alone.
abbrev pub KeepsOwn : Option Config → Type 0
KeepsOwn cfg = All (λ m. last_value m (custom_of cfg) ≡ none) own_names

length-host_script : (h : Headers) → length (host_script h) ≤ 1
unfolding host_script
length-host_script h = ground arith

length-clean_headers : (h : Headers) → length (clean_headers h) ≤ length h
unfolding clean_headers
length-clean_headers h =
    let a = headers_remove h (codes "X-Real-IP") in
    let b = headers_remove a (codes "X-Forwarded-For") in
    let c = headers_remove b (codes "X-Forwarded-Host") in
    omega (
      arith,
      length-headers_remove h (codes "X-Real-IP"),
      length-headers_remove a (codes "X-Forwarded-For"),
      length-headers_remove b (codes "X-Forwarded-Host"),
      length-headers_remove c (codes "X-Forwarded-Proto"),
    )

module _ (h : Headers) (client_ip version : Option Bytes) (cfg : Option Config) (t r1 r2 : ℕ)
    (valid : IsValid h) where
  abbrev ip : Bytes
  ip = or_default client_ip (codes "unknown")

  abbrev req_id : Bytes
  req_id = generate_req_id 16 t r1 r2

  abbrev seen : Headers
  seen = add_custom (clean_headers h) (address_script ip)

  abbrev own : List (Bytes × Bytes)
  own = own_script ip (host_script seen) version req_id

  rewrite_script-own : rewrite_script h client_ip version cfg t r1 r2 ≡ own ++ custom_of cfg
  unfolding rewrite_script
  rewrite_script-own = simp append_assoc

  script_value :
      (m : Bytes)
      → last_value m (custom_of cfg) ≡ none
      → last_value m (rewrite_script h client_ip version cfg t r1 r2) ≡ last_value m own
  script_value m e = rw rewrite_script-own (last_value-append m own (custom_of cfg) e)

  abbrev result : Headers
  result = rewrite_headers h client_ip version cfg t r1 r2

  only :
      (m w : Bytes)
      → last_value m (custom_of cfg) ≡ none
      → last_value m own ≡ some w
      → OnlyValue m (c_str w) result
  only m w e o = rw (rewrite_headers-script h client_ip version cfg t r1 r2) (
      OnlyValue-add_custom m w _ (clean_headers h) (clean_headers-IsValid h valid)
        (script_value m e ∙ o))

  -- From a valid table, whether or not it has room, and where the configured headers leave the
  -- gateway's names alone, the next hop reads under the names that tell who the client is the
  -- gateway's one value or none, whatever the client sent.
  pub rewrite_headers-OnlyValue :
      KeepsOwn cfg
      → OnlyValue
          (codes "x-real-ip")
          (c_str (or_default client_ip (codes "unknown")))
          (rewrite_headers h client_ip version cfg t r1 r2)
        × OnlyValue
            (codes "x-forwarded-for")
            (c_str (or_default client_ip (codes "unknown")))
            (rewrite_headers h client_ip version cfg t r1 r2)
        × OnlyValue
            (codes "x-forwarded-proto")
            (c_str (codes "http"))
            (rewrite_headers h client_ip version cfg t r1 r2)
  rewrite_headers-OnlyValue (k1, (k2, (k3, _))) =
      let v = own_values ip seen version req_id in
      (only _ _ k1 v.0, only _ _ k2 v.1, only _ _ k3 v.2)

  length-script :
      length (rewrite_script h client_ip version cfg t r1 r2) ≤ 6 + length (custom_of cfg)
  length-script = rw rewrite_script-own (
      omega (
        arith,
        length-append own (custom_of cfg),
        length-append (host_script seen) (gateway_script version req_id),
        length-host_script seen,
      ))

  shown :
      (m : Bytes)
      → length h + 6 + length (custom_of cfg) ≤ header_max
      → values_of m result
        ≡ overlay
            (last_value m (rewrite_script h client_ip version cfg t r1 r2))
            (values_of m (clean_headers h))
  shown m room = rw (rewrite_headers-script h client_ip version cfg t r1 r2) (
      values_of-add_custom m _ (clean_headers h) (clean_headers-IsValid h valid)
        (omega (arith, length-script, length-clean_headers h)))

  exactly :
      (m w : Bytes)
      → length h + 6 + length (custom_of cfg) ≤ header_max
      → last_value m (custom_of cfg) ≡ none
      → last_value m own ≡ some w
      → values_of m result ≡ c_str w ∷ []
  exactly m w room e o =
      shown m room ∙ ap (λ x. overlay x (values_of m (clean_headers h))) (script_value m e ∙ o)

  -- From a valid table with room for six more headers and the configured ones, which leave the
  -- gateway's names alone, the next hop reads under each name of the gateway its one value.
  pub rewrite_headers-values :
      KeepsOwn cfg
      → length h + 6 + length (custom_of cfg) ≤ header_max
      → (values_of (codes "x-real-ip") (rewrite_headers h client_ip version cfg t r1 r2)
          ≡ c_str (or_default client_ip (codes "unknown")) ∷ [])
        × (values_of (codes "x-forwarded-for") (rewrite_headers h client_ip version cfg t r1 r2)
            ≡ c_str (or_default client_ip (codes "unknown")) ∷ [])
        × (values_of (codes "x-forwarded-proto") (rewrite_headers h client_ip version cfg t r1 r2)
            ≡ c_str (codes "http") ∷ [])
        × (values_of (codes "via") (rewrite_headers h client_ip version cfg t r1 r2)
            ≡ c_str (via_value version) ∷ [])
        × (values_of (codes "x-gateway-req-id") (rewrite_headers h client_ip version cfg t r1 r2)
            ≡ c_str (generate_req_id 16 t r1 r2) ∷ [])
  rewrite_headers-values (k1, (k2, (k3, (k4, (k5, _))))) room =
      let v = own_values ip seen version req_id in
      (
        exactly _ _ room k1 v.0,
        exactly _ _ room k2 v.1,
        exactly _ _ room k3 v.2,
        exactly _ _ room k4 v.3,
        exactly _ _ room k5 v.4,
      )
