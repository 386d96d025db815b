-- ===== src/Packet/Canonical.antt =====
-- The other direction of the header codec of crates/protocol/src/data.rs: what `parse` accepts is
-- a canonical encoding.
use xs_nexus.Base.{
  ℕ, ◌≤◌, ◌≡◌, sym, true, some, List, [], ◌∷◌, ◌++◌, length, arith, leb→le, get_or, All, take,
  ==_iff, ensure-passed, bind-passed, some-eq,
}
use xs_nexus.Base.Bytes.{
  IsByte, be, from_be, slice, bytes_eq, bytes_eq→eq, be-join, slice-join, byte-join,
  from_be-slice-lt,
}
use xs_nexus.Packet.{
  PacketType, DataHeader, type_code, packet_type_of, valid_flags, encode, parse, fields_at, magic,
}
use xs_nexus.Packet.Codec.{IsHeader}

-- What the guards of `parse` establish.
record Accepted (e : List ℕ) (t : PacketType) : Type 0 where
  long : 96 ≤ length e
  tag : bytes_eq (slice 0 4 e) magic ≡ true
  first : get_or e 4 0 ≡ 1
  size : from_be (slice 8 10 e) ≡ 96
  zeros : bytes_eq (slice 92 96 e) (0 ∷ 0 ∷ 0 ∷ 0 ∷ []) ≡ true
  kind : packet_type_of (get_or e 5 0) ≡ some t
  suits : valid_flags t (from_be (slice 6 8 e)) ≡ true

parse_accepted :
    (e : List ℕ) (h : DataHeader)
    → parse e ≡ some h
    → (t : PacketType) × Accepted e t × (fields_at e t ≡ h)
unfolding parse
parse_accepted e h p =
    let (long, p) = ensure-passed _ _ p in
    let (tag, p) = ensure-passed _ _ p in
    let (first, p) = ensure-passed _ _ p in
    let (size, p) = ensure-passed _ _ p in
    let (zeros, p) = ensure-passed _ _ p in
    let (t, kind, p) = bind-passed _ _ p in
    let (suits, p) = ensure-passed _ _ p in
    (
      t,
      record {
        long = leb→le _ _ long;
        tag = tag;
        first = (==_iff _ _).0 first;
        size = (==_iff _ _).0 size;
        zeros = zeros;
        kind = kind;
        suits = suits;
      },
      some-eq p,
    )

type_code_of : (b : ℕ) (t : PacketType) → packet_type_of b ≡ some t → b ≡ type_code t
unfolding packet_type_of
type_code_of b t p = ground arith

reserved : (e : List ℕ) (t : PacketType) → Accepted e t → be 4 0 ≡ slice 92 96 e
unfolding be
reserved e t a = sym (bytes_eq→eq (slice 92 96 e) _ a.zeros)

length_field :
    (e rest : List ℕ) (t : PacketType)
    → All IsByte e
    → Accepted e t
    → rest ≡ slice 10 96 e
    → be 2 96 ++ rest ≡ slice 8 96 e
length_field e rest t hb a p =
    rw (← a.size) (be-join e rest 8 10 96 hb (omega arith) (omega arith) a.long p)

-- The ten fields from byte 6 on.
from_byte_six :
    (e : List ℕ) (t : PacketType)
    → All IsByte e
    → Accepted e t
    → be 2 (from_be (slice 6 8 e))
        ++ (be 2 96
            ++ (be 2 (from_be (slice 10 12 e))
                ++ (be 16 (from_be (slice 12 28 e))
                    ++ (be 16 (from_be (slice 28 44 e))
                        ++ (be 16 (from_be (slice 44 60 e))
                            ++ (be 16 (from_be (slice 60 76 e))
                                ++ (be 4 (from_be (slice 76 80 e))
                                    ++ (be 8 (from_be (slice 80 88 e))
                                        ++ (be 4 (from_be (slice 88 92 e)) ++ be 4 0)))))))))
      ≡ slice 6 96 e
from_byte_six e t hb a =
    let join = λ (rest : List ℕ) (i j : ℕ) (ij : i ≤ j) (jk : j ≤ 96) (p : rest ≡ slice j 96 e).
      be-join e rest i j 96 hb ij jk a.long p in
    join _ 6 8 (omega arith) (omega arith) (
      length_field e _ t hb a (
        join _ 10 12 (omega arith) (omega arith) (
          join _ 12 28 (omega arith) (omega arith) (
            join _ 28 44 (omega arith) (omega arith) (
              join _ 44 60 (omega arith) (omega arith) (
                join _ 60 76 (omega arith) (omega arith) (
                  join _ 76 80 (omega arith) (omega arith) (
                    join _ 80 88 (omega arith) (omega arith)
                      (join _ 88 92 (omega arith) (omega arith) (reserved e t a))))))))))

encode-fields_at :
    (e : List ℕ) (t : PacketType)
    → All IsByte e
    → Accepted e t
    → encode (fields_at e t) ≡ slice 0 96 e
unfolding encode fields_at
encode-fields_at e t hb a =
    slice-join e _ 0 4 96 magic (omega arith) (omega arith)
      (sym (bytes_eq→eq (slice 0 4 e) magic a.tag))
      (byte-join e _ 4 5 96 1 (omega arith) (omega arith) a.long a.first (
        byte-join e _ 5 6 96 (type_code t) (omega arith) (omega arith) a.long
          (type_code_of (get_or e 5 0) t a.kind) (from_byte_six e t hb a)))

fields_at-IsHeader :
    (e : List ℕ) (t : PacketType) → All IsByte e → Accepted e t → IsHeader (fields_at e t)
unfolding fields_at
fields_at-IsHeader e t hb a =
    let in_range = λ (i j : ℕ) (le : j ≤ 96). from_be-slice-lt i j e hb (omega (arith, a.long)) in
    record {
      flags = in_range 6 8 (omega arith);
      payload_length = in_range 10 12 (omega arith);
      network_id = in_range 12 28 (omega arith);
      source_node_id = in_range 28 44 (omega arith);
      destination_node_id = in_range 44 60 (omega arith);
      session_id = in_range 60 76 (omega arith);
      key_epoch = in_range 76 80 (omega arith);
      sequence = in_range 80 88 (omega arith);
      path_id = in_range 88 92 (omega arith);
      suits = a.suits;
    }

-- Whatever bytes `parse` accepts begin with the one encoding of the header that it returns, and
-- that header is in range: no two different byte strings of 96 bytes are read as one header.
pub parse_canonical :
    (e : List ℕ) (h : DataHeader)
    → All IsByte e
    → parse e ≡ some h
    → IsHeader h × (take 96 e ≡ encode h)
parse_canonical e h hb p =
    let (t, a, same) = parse_accepted e h p in
    rw (← same) (fields_at-IsHeader e t hb a, sym (encode-fields_at e t hb a))
