-- ===== src/Discovery/Endpoint.antt =====
-- The endpoint in a discovery response: `encode_endpoint` and `decode_endpoint` of
-- crates/protocol/src/discovery.rs are inverse to each other.
use xs_nexus.Base.{
  ℕ, ◌^◌, ◌<◌, ◌≡◌, inl, inr, refl, sym, ap, ◌∙◌, true, ◌&&◌, some, List, [], ◌∷◌, ◌++◌, ◌==◌,
  ==_iff, ensure-passed, bind-passed, some-eq, &&-true, Bool-cases, take-length, length, get_or,
  take, replicate, All, arith,
}
use xs_nexus.Base.Bytes.{
  IsByte, be, from_be, from_be-be, slice, bytes_eq, bytes_eq→eq, be-join, slice-join, byte-join,
}
use xs_nexus.Discovery.{
  IpAddr, v4, v6, SocketAddr, valid_observed_endpoint, ip_bytes, encode_endpoint, decode_ip,
  decode_endpoint,
}

-- The address and the port fit their widths.
abbrev pub IsIp : IpAddr → Type 0
IsIp (v4 address) = address < 2 ^ 32
IsIp (v6 address) = address < 2 ^ 128

pub record IsSocketAddr (endpoint : SocketAddr) : Type 0 where
  pub ip : IsIp endpoint.ip
  pub port : endpoint.port < 2 ^ 16

abbrev pub endpoint_bytes : SocketAddr → List ℕ
endpoint_bytes endpoint = ip_bytes endpoint.ip (be 2 endpoint.port ++ (0 ∷ 0 ∷ []))

decode-endpoint_bytes :
    (ip : IpAddr) (port : ℕ)
    → IsIp ip
    → port < 2 ^ 16
    → decode_endpoint (endpoint_bytes (record { ip = ip; port = port }))
      ≡ some (record { ip = ip; port = port })
unfolding decode_endpoint decode_ip ip_bytes be bytes_eq
decode-endpoint_bytes (v4 address) port h k = rw (from_be-be 4 address h, from_be-be 2 port k) refl
decode-endpoint_bytes (v6 address) port h k = rw (from_be-be 16 address h, from_be-be 2 port k) refl

-- An endpoint that is encoded is read back.
pub decode_endpoint-encode_endpoint :
    (endpoint : SocketAddr) (encoded : List ℕ)
    → IsSocketAddr endpoint
    → encode_endpoint endpoint ≡ some encoded
    → decode_endpoint encoded ≡ some endpoint
unfolding encode_endpoint
decode_endpoint-encode_endpoint endpoint encoded v h =
    let (_, h) = ensure-passed (valid_observed_endpoint endpoint) _ h in
    rw (← some-eq h) (decode-endpoint_bytes endpoint.ip endpoint.port v.ip v.port)

-- What `decode_ip` has read, given the zeros around it.
module _ (e : List ℕ) (bytes : All IsByte e) (long : length e ≡ 24)
    (zeros : bytes_eq (slice 1 4 e) (0 ∷ 0 ∷ 0 ∷ []) ≡ true)
    (last : bytes_eq (slice 22 24 e) (0 ∷ 0 ∷ []) ≡ true) where
  port_bytes : be 2 (from_be (slice 20 22 e)) ++ (0 ∷ 0 ∷ []) ≡ slice 20 24 e
  port_bytes =
      be-join e (0 ∷ 0 ∷ []) 20 22 24 bytes (omega arith) (omega arith) (omega arith)
        (sym (bytes_eq→eq (slice 22 24 e) _ last))

  behind_tag :
      (tag : ℕ) (rest : List ℕ)
      → get_or e 0 0 ≡ tag
      → rest ≡ slice 4 24 e
      → tag ∷ 0 ∷ 0 ∷ 0 ∷ rest ≡ slice 0 24 e
  behind_tag tag rest first h =
      byte-join e _ 0 1 24 tag (omega arith) (omega arith) (omega arith) first (
        slice-join e rest 1 4 24 (0 ∷ 0 ∷ 0 ∷ []) (omega arith) (omega arith)
          (sym (bytes_eq→eq (slice 1 4 e) _ zeros)) h)

  ip_v4 :
      get_or e 0 0 ≡ 4
      → bytes_eq (slice 8 20 e) (replicate 12 0) ≡ true
      → endpoint_bytes (record { ip = v4 (from_be (slice 4 8 e)); port = from_be (slice 20 22 e) })
        ≡ slice 0 24 e
  unfolding ip_bytes
  ip_v4 first padding = behind_tag 4 _ first (
      be-join e _ 4 8 24 bytes (omega arith) (omega arith) (omega arith) (
        slice-join e _ 8 20 24 (replicate 12 0) (omega arith) (omega arith)
          (sym (bytes_eq→eq (slice 8 20 e) _ padding)) port_bytes))

  ip_v6 :
      get_or e 0 0 ≡ 6
      → endpoint_bytes (record { ip = v6 (from_be (slice 4 20 e)); port = from_be (slice 20 22 e) })
        ≡ slice 0 24 e
  unfolding ip_bytes
  ip_v6 first =
      behind_tag 6 _ first
        (be-join e _ 4 20 24 bytes (omega arith) (omega arith) (omega arith) port_bytes)

  ip_cases :
      (ip : IpAddr)
      → decode_ip e ≡ some ip
      → endpoint_bytes (record { ip = ip; port = from_be (slice 20 22 e) }) ≡ slice 0 24 e
  unfolding decode_ip
  ip_cases ip h =
      elim (Bool-cases (get_or e 0 0 == 4 && bytes_eq (slice 8 20 e) (replicate 12 0))) [
        | inl old ↦
            let (first, padding) = &&-true (get_or e 0 0 == 4) _ old in
            let same : v4 (from_be (slice 4 8 e)) ≡ ip = some-eq (rw old at h) in
            rw (← same) (ip_v4 ((==_iff (get_or e 0 0) 4).0 first) padding)
        | inr other ↦ elim (Bool-cases (get_or e 0 0 == 6)) [
          | inl new ↦
              let same : v6 (from_be (slice 4 20 e)) ≡ ip = some-eq (rw (other, new) at h) in
              rw (← same) (ip_v6 ((==_iff (get_or e 0 0) 6).0 new))
          | inr none_of ↦ absurd (let x = rw (other, none_of) at h in cc)
        ]
      ]

-- Bytes that are decoded to an endpoint which may be observed are that endpoint's encoding.
pub encode_endpoint-decode_endpoint :
    (encoded : List ℕ) (endpoint : SocketAddr)
    → All IsByte encoded
    → decode_endpoint encoded ≡ some endpoint
    → valid_observed_endpoint endpoint ≡ true
    → encode_endpoint endpoint ≡ some encoded
unfolding encode_endpoint decode_endpoint
encode_endpoint-decode_endpoint encoded endpoint bytes h valid =
    let (framed, h) =
      ensure-passed
        (length encoded == 24
          && bytes_eq (slice 1 4 encoded) (0 ∷ 0 ∷ 0 ∷ [])
          && bytes_eq (slice 22 24 encoded) (0 ∷ 0 ∷ []))
        _ h in
    let (ip, read, h) = bind-passed (decode_ip encoded) _ h in
    let (both, last) = &&-true _ (bytes_eq (slice 22 24 encoded) (0 ∷ 0 ∷ [])) framed in
    let (long, zeros) = &&-true (length encoded == 24) _ both in
    let long : length encoded ≡ 24 = (==_iff (length encoded) 24).0 long in
    let same : record { ip = ip; port = from_be (slice 20 22 encoded) } ≡ endpoint = some-eq h in
    let whole : take 24 encoded ≡ encoded = rw long at (take-length encoded) in
    rw valid (
      ap some
        (ap endpoint_bytes (sym same) ∙ ip_cases encoded bytes long zeros last ip read ∙ whole))
