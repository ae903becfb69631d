-- ===== src/Address.antt =====
-- The class `CAddress` of `miner_imports/test_framework/messages.py`: the address of a peer, in the
-- format of version 1 (IPv4) and in that of BIP155. The conversions between the bytes and the text of
-- an address by the standard library (`socket`, `base64`, `hashlib.sha3_256`) are an interface.
pub mod Read
pub mod RoundTrip
pub mod Tests
use mutiny_net.Prelude.{
  ℕ, ◌+◌, ◌≡◌, Option, none, some, Bool, true, false, List, [], ◌∷◌, ◌++◌, ◌==◌, ltb, if◌then◌else◌,
  length, take, replicate,
}
use mutiny_net.Prelude.Result.{
  Result, ok, err, assertion_error, base_exception, key_error, ◌>>=◌, ◌>>◌, guard,
}
use mutiny_net.Prelude.Texts.{ends_with, but_last}
use mutiny_net.Bytes.{to_bytes}
use mutiny_net.Bytes.Reads.{◌+>◌}
use mutiny_net.Bytes.Parser.{to_bytes_big}
use mutiny_net.Messages.Write.{ser_compact_size}

abbrev pub net_ipv4 : ℕ
net_ipv4 = 1

abbrev pub net_ipv6 : ℕ
net_ipv6 = 2

abbrev pub net_torv3 : ℕ
net_torv3 = 4

abbrev pub net_i2p : ℕ
net_i2p = 5

abbrev pub net_cjdns : ℕ
net_cjdns = 6

-- `ADDRV2_ADDRESS_LENGTH`, which has the keys of `ADDRV2_NET_NAME`
unfoldable pub addrv2_address_length : ℕ → Option ℕ
addrv2_address_length net =
    if net == net_ipv4
    then some 4
    else if net == net_ipv6
    then some 16
    else if net == net_torv3
    then some 32
    else if net == net_i2p
    then some 32
    else if net == net_cjdns
    then some 16
    else none

-- `"===="`
abbrev pub i2p_pad : List ℕ
i2p_pad = b'=' ∷ b'=' ∷ b'=' ∷ b'=' ∷ []

-- `".onion"` and `".b32.i2p"`
abbrev pub onion : List ℕ
onion = b'.' ∷ b'o' ∷ b'n' ∷ b'i' ∷ b'o' ∷ b'n' ∷ []

abbrev pub b32_i2p : List ℕ
b32_i2p = b'.' ∷ b'b' ∷ b'3' ∷ b'2' ∷ b'.' ∷ b'i' ∷ b'2' ∷ b'p' ∷ []

-- `".onion checksum"`
abbrev pub checksum_prefix : List ℕ
checksum_prefix = onion ++ b' ' ∷ b'c' ∷ b'h' ∷ b'e' ∷ b'c' ∷ b'k' ∷ b's' ∷ b'u' ∷ b'm' ∷ []

-- The standard library: a text that it made of bytes is read as these bytes. `b32_lower` is
-- `b32encode(_).decode("ascii").lower()`, which pads 32 bytes with four characters, and `b32decode`
-- takes small letters for capitals.
pub record Texts : Type 0 where
  pub inet_aton : List ℕ → Result (List ℕ)
  pub inet_ntoa : List ℕ → Result (List ℕ)
  pub inet_pton : List ℕ → Result (List ℕ)
  pub inet_ntop : List ℕ → Result (List ℕ)
  pub b32decode : List ℕ → Result (List ℕ)
  pub b32_lower : List ℕ → List ℕ
  pub sha3 : List ℕ → List ℕ
  pub inet_aton-inet_ntoa : (b t : List ℕ) → inet_ntoa b ≡ ok t → inet_aton t ≡ ok b
  pub inet_pton-inet_ntop : (b t : List ℕ) → inet_ntop b ≡ ok t → inet_pton t ≡ ok b
  pub b32decode-b32_lower : (b : List ℕ) → b32decode (b32_lower b) ≡ ok b
  pub b32_lower_padded : (b : List ℕ) → length b ≡ 32 → (t : List ℕ) × (b32_lower b ≡ t ++ i2p_pad)

pub record CAddress : Type 0 where
  pub time : ℕ
  pub n_services : ℕ
  pub net : ℕ
  pub ip : List ℕ
  pub port : ℕ

-- `CAddress()`, with the address "0.0.0.0"
abbrev pub new_address : CAddress
new_address = record {
  time = 0;
  n_services = 1;
  net = net_ipv4;
  ip = b'0' ∷ b'.' ∷ b'0' ∷ b'.' ∷ b'0' ∷ b'.' ∷ b'0' ∷ [];
  port = 0;
}

-- `self.ADDRV2_ADDRESS_LENGTH[self.net]`
unfoldable pub length_of : ℕ → Result ℕ
unfolding addrv2_address_length
length_of net = elim (addrv2_address_length net) [ none ↦ err key_error | some l ↦ ok l ]

-- `self.net in self.ADDRV2_NET_NAME`
unfoldable pub is_known : ℕ → Bool
unfolding addrv2_address_length
is_known net = elim (addrv2_address_length net) [ none ↦ false | some l ↦ true ]

module _ (lib : Texts) where
  -- `CAddress.serialize`: twelve bytes stand before the four of an IPv4 address.
  unfoldable pub ser_address : Bool → CAddress → Result (List ℕ)
  unfolding to_bytes to_bytes_big
  ser_address with_time a =
      guard (a.net == net_ipv4) assertion_error
      >> ((if with_time then to_bytes 4 a.time else ok [])
          +> to_bytes 8 a.n_services
          +> ok (replicate 10 0 ++ replicate 2 255)
          +> lib.inet_aton a.ip
          +> to_bytes_big 2 a.port)

  -- The bytes of a text, on each network
  unfoldable pub bytes_of : ℕ → List ℕ → Result (List ℕ)
  unfolding ends_with but_last
  bytes_of net ip =
      if net == net_ipv4
      then lib.inet_aton ip
      else if net == net_ipv6
      then lib.inet_pton ip
      else if net == net_torv3
      then guard (ends_with ip onion) assertion_error
        >> (do b ← lib.b32decode (but_last 6 ip); ok (take 32 b))
      else if net == net_i2p
      then guard (ends_with ip b32_i2p) assertion_error >> lib.b32decode (but_last 8 ip ++ i2p_pad)
      else if net == net_cjdns
      then lib.inet_pton ip
      else err base_exception

  -- `CAddress.serialize_v2`
  unfoldable pub ser_address_v2 : CAddress → Result (List ℕ)
  unfolding is_known to_bytes ser_compact_size length_of bytes_of to_bytes_big
  ser_address_v2 a =
      guard (is_known a.net) assertion_error
      >> (to_bytes 4 a.time
          +> ser_compact_size a.n_services
          +> to_bytes 1 a.net
          +> (do l ← length_of a.net; ser_compact_size l)
          +> bytes_of a.net a.ip
          +> to_bytes_big 2 a.port)
