-- ===== src/Address/Tests.antt =====
-- Addresses of a library that takes the bytes of an address for its text.
use mutiny_net.Prelude.{ℕ, ◌≡◌, refl, sym, ap, false, List, [], ◌∷◌, ◌++◌, replicate}
use mutiny_net.Prelude.Result.{ok, err, assertion_error}
use mutiny_net.Prelude.Texts.{but_last, but_last-append}
use mutiny_net.Address.{
  Texts, CAddress, length_of, net_ipv4, net_torv3, i2p_pad, onion, ser_address, ser_address_v2,
}
use mutiny_net.Address.Read.{text_of, deser_address_v2}
use mutiny_net.Address.RoundTrip.{deser_address_v2-ser_address_v2}

abbrev pub plain : Texts
plain = record {
  inet_aton = λ t. ok t;
  inet_ntoa = λ b. ok b;
  inet_pton = λ t. ok t;
  inet_ntop = λ b. ok b;
  b32decode = λ t. ok (but_last 4 t);
  b32_lower = λ b. b ++ i2p_pad;
  sha3 = λ b. b;
  inet_aton-inet_ntoa = λ b t e. sym e;
  inet_pton-inet_ntop = λ b t e. sym e;
  b32decode-b32_lower = λ b. ap ok (but_last-append b i2p_pad);
  b32_lower_padded = λ b l. (b, refl);
}

abbrev pub local : CAddress
local = record { time = 0; n_services = 1; net = net_ipv4; ip = 127 ∷ 0 ∷ 0 ∷ 1 ∷ []; port = 38333 }

-- a hidden service, whose text ends with a checksum
abbrev service : CAddress
service = record {
  time = 5;
  n_services = 1033;
  net = net_torv3;
  ip = replicate 32 7 ++ b'.' ∷ b'o' ∷ 3 ∷ i2p_pad ++ onion;
  port = 8333;
}

abbrev service_bytes : List ℕ
service_bytes = 5 ∷ 0 ∷ 0 ∷ 0 ∷ 253 ∷ 9 ∷ 4 ∷ 4 ∷ 32 ∷ replicate 32 7 ++ 32 ∷ 141 ∷ []

service_is_written : ser_address_v2 plain service ≡ ok service_bytes
unfolding ser_address_v2
service_is_written = refl

local_is_written :
    ser_address plain false local
    ≡ ok (1 ∷ replicate 17 0 ++ 255 ∷ 255 ∷ 127 ∷ 0 ∷ 0 ∷ 1 ∷ 149 ∷ 189 ∷ [])
unfolding ser_address
local_is_written = refl

-- version 1 is for IPv4 alone
not_ipv4 : ser_address plain false service ≡ err assertion_error
unfolding ser_address
not_ipv4 = refl

deser_address_v2-ser_address_v2_example :
    deser_address_v2 plain (service_bytes ++ 9 ∷ []) ≡ ok (service, 9 ∷ [])
unfolding length_of text_of
deser_address_v2-ser_address_v2_example =
    deser_address_v2-ser_address_v2 plain service service_bytes (9 ∷ [])
      (replicate 32 7, refl, refl) service_is_written
