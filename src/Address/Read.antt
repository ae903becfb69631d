-- ===== src/Address/Read.antt =====
-- The methods `deserialize` and `deserialize_v2` of `CAddress`.
use mutiny_net.Prelude.{ℕ, Bool, true, false, List, [], ◌∷◌, ◌++◌, ◌==◌, if◌then◌else◌, take}
use mutiny_net.Prelude.Result.{Result, ok, err, assertion_error, base_exception}
use mutiny_net.Prelude.Texts.{but_last}
use mutiny_net.Bytes.{Reader, give, read, read_int}
use mutiny_net.Bytes.Parser.{Parser, ◌>>=◌, ◌>>◌, always, call, assert, read_big}
use mutiny_net.Messages.Read.{deser_compact_size}
use mutiny_net.Address.{
  net_ipv4, net_ipv6, net_torv3, net_i2p, net_cjdns, onion, b32_i2p, checksum_prefix, Texts,
  CAddress, length_of, is_known,
}

-- VERSION messages have no time: it keeps the value that a new address has.
unfoldable pub read_time : Bool → Reader ℕ
unfolding read_int give
read_time true = read_int 4
read_time false = give 0

module _ (lib : Texts) where
  -- `CAddress.deserialize`: twelve bytes are skipped.
  unfoldable pub deser_address : Bool → Parser CAddress
  unfolding read_time read_int read read_big always call
  deser_address with_time = do
    time ← always (read_time with_time)
    n_services ← always (read_int 8)
    _ ← always (read 12)
    b ← always (read 4)
    ip ← call (lib.inet_ntoa b)
    port ← always (read_big 2)
    call
        (ok (record { time = time; n_services = n_services; net = net_ipv4; ip = ip; port = port }))

  -- The text of bytes, on each network
  unfoldable pub text_of : ℕ → List ℕ → Result (List ℕ)
  unfolding but_last
  text_of net b =
      if net == net_ipv4
      then lib.inet_ntoa b
      else if net == net_ipv6
      then lib.inet_ntop b
      else if net == net_torv3
      then ok (
          lib.b32_lower (b ++ take 2 (lib.sha3 (checksum_prefix ++ b ++ 3 ∷ [])) ++ 3 ∷ [])
          ++ onion)
      else if net == net_i2p
      then ok (but_last 4 (lib.b32_lower b) ++ b32_i2p)
      else if net == net_cjdns
      then lib.inet_ntop b
      else err base_exception

  -- `CAddress.deserialize_v2`
  unfoldable pub deser_address_v2 : Parser CAddress
  unfolding read_int deser_compact_size is_known length_of read text_of read_big always call assert
  deser_address_v2 = do
    time ← always (read_int 4)
    n_services ← always deser_compact_size
    net ← always (read_int 1)
    assert (is_known net) assertion_error
    address_length ← always deser_compact_size
    l ← call (length_of net)
    assert (address_length == l) assertion_error
    b ← always (read address_length)
    ip ← call (text_of net b)
    port ← always (read_big 2)
    call (ok (record { time = time; n_services = n_services; net = net; ip = ip; port = port }))
