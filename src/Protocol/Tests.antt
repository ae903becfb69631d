-- ===== src/Protocol/Tests.antt =====
-- Messages that are sent with a plain library: a text is its bytes, and a hash starts with their count.
use mutiny_net.Prelude.{
  ℕ, ◌%◌, ◌≡◌, refl, sym, arith, List, [], ◌∷◌, ◌++◌, some, replicate, length, take, drop,
}
use mutiny_net.Prelude.Int.{pos, negsuc}
use mutiny_net.Prelude.Result.{ok, type_error, value_error}
use mutiny_net.Bytes.Parser.{Parser}
use mutiny_net.Address.Tests.{plain, local}
use mutiny_net.Protocol.{Message, Library}
use mutiny_net.Protocol.Write.{serialize}
use mutiny_net.Protocol.Map.{find, message_map, msgtype}
use mutiny_net.Protocol.RoundTrip.{received}
use mutiny_net.Protocol.Contents.{deserialize-serialize}
use mutiny_net.Protocol.Frame.{
  received_one, raised, waits, runs, build_message, read_frame, on_data, data_arrives,
}
use mutiny_net.Protocol.Pieces.{send_all, joined, data_arrives-send_all}
use mutiny_net.Protocol.Faults.{endless_frame, on_data-endless_frame, read_frame-filteradd}

abbrev lib : Library
lib = record {
  texts = plain;
  encode = λ t. ok t;
  decode = λ s. ok s;
  decode-encode = λ t s e. sym e;
  hash256 = λ s. (length s % 256) ∷ 1 ∷ 2 ∷ 3 ∷ [];
}

-- the magic bytes of the signet
abbrev magic : List ℕ
magic = 0x0a ∷ 0x03 ∷ 0xcf ∷ 0x40 ∷ []

abbrev ping : Message
ping = Message.ping (record { nonce = 7 })

abbrev ping_frame : List ℕ
ping_frame =
    magic
    ++ b'p' ∷ b'i' ∷ b'n' ∷ b'g' ∷ replicate 8 0
    ++ 8 ∷ 0 ∷ 0 ∷ 0 ∷ 8 ∷ 1 ∷ 2 ∷ 3 ∷ 7 ∷ replicate 7 0

abbrev verack_frame : List ℕ
verack_frame =
    magic
    ++ b'v' ∷ b'e' ∷ b'r' ∷ b'a' ∷ b'c' ∷ b'k' ∷ replicate 6 0
    ++ 0 ∷ 0 ∷ 0 ∷ 0 ∷ 0 ∷ 1 ∷ 2 ∷ 3 ∷ []

ping_is_built : build_message lib magic ping ≡ ok ping_frame
unfolding build_message
ping_is_built = refl

left_over : read_frame lib magic (verack_frame ++ 0 ∷ []) ≡ received_one Message.verack (0 ∷ [])
unfolding read_frame
left_over = refl

-- a frame whose checksum is wrong
wrong_checksum :
    read_frame lib magic (magic ++ (replicate 12 0 ++ (replicate 4 0 ++ replicate 4 9)))
    ≡ raised value_error
unfolding read_frame
wrong_checksum = refl

sent : send_all lib magic (ping ∷ Message.verack ∷ []) ≡ ok (ping_frame ++ verack_frame)
unfolding send_all
sent = refl

-- the bytes in three pieces, which end within frames
abbrev pieces : List (List ℕ)
pieces = take 10 ping_frame ∷ (drop 10 ping_frame ++ take 3 verack_frame) ∷ drop 3 verack_frame ∷ []

pieces_are_sent : joined pieces ≡ ping_frame ++ verack_frame
unfolding joined
pieces_are_sent = refl

data_arrives-send_all_example :
    data_arrives lib magic [] pieces ≡ (ping ∷ Message.verack ∷ [], waits [])
unfolding received
data_arrives-send_all_example =
    data_arrives-send_all lib magic (ping ∷ Message.verack ∷ []) (ping_frame ++ verack_frame) pieces
      refl (λ p. omega arith) (tt, (tt, tt)) sent (omega arith) pieces_are_sent

abbrev version : Message
version = Message.version (record {
  n_version = pos 70016;
  n_services = 9;
  n_time = pos 1700000000;
  addr_to = local;
  addr_from = local;
  n_nonce = 3;
  str_sub_ver = b'/' ∷ b'm' ∷ b'/' ∷ [];
  n_starting_height = negsuc 0;
  relay = 1;
})

abbrev local_bytes : List ℕ
local_bytes = 1 ∷ replicate 17 0 ++ 255 ∷ 255 ∷ 127 ∷ 0 ∷ 0 ∷ 1 ∷ 149 ∷ 189 ∷ []

abbrev version_bytes : List ℕ
version_bytes =
    128 ∷ 17 ∷ 1 ∷ 0 ∷ 9 ∷ replicate 7 0
    ++ 0 ∷ 241 ∷ 83 ∷ 101 ∷ replicate 4 0
    ++ local_bytes
    ++ local_bytes
    ++ 3 ∷ replicate 7 0
    ++ 3 ∷ b'/' ∷ b'm' ∷ b'/' ∷ 255 ∷ 255 ∷ 255 ∷ 255 ∷ 1 ∷ []

version_is_written : serialize lib version ≡ ok version_bytes
unfolding serialize
version_is_written = refl

deserialize-serialize_example :
    (parser : Parser Message) × (find (msgtype version) (message_map lib) ≡ some parser)
    × (parser (version_bytes ++ 5 ∷ []) ≡ ok (version, 5 ∷ []))
unfolding received
deserialize-serialize_example =
    deserialize-serialize lib version version_bytes (5 ∷ [])
      ((127 ∷ 0 ∷ 0 ∷ 1 ∷ [], refl, refl, refl), (127 ∷ 0 ∷ 0 ∷ 1 ∷ [], refl, refl, refl))
      version_is_written

on_data-endless_frame_example :
    on_data lib magic 1000 (endless_frame lib magic Message.verack [])
    ≡ (replicate 1000 Message.verack, runs (endless_frame lib magic Message.verack []))
unfolding serialize received
on_data-endless_frame_example =
    on_data-endless_frame 1000 lib magic Message.verack [] refl (λ s. omega arith) tt refl

abbrev filteradd_frame : List ℕ
filteradd_frame =
    magic
    ++ b'f' ∷ b'i' ∷ b'l' ∷ b't' ∷ b'e' ∷ b'r' ∷ b'a' ∷ b'd' ∷ b'd' ∷ 0 ∷ 0 ∷ 0 ∷ 2 ∷ 0 ∷ 0 ∷ 0 ∷ 2
      ∷ 1 ∷ 2 ∷ 3 ∷ 1 ∷ 9 ∷ []

filteradd_is_built :
    build_message lib magic (Message.filteradd (record { bytes = 9 ∷ [] })) ≡ ok filteradd_frame
unfolding build_message
filteradd_is_built = refl

read_frame-filteradd_example : read_frame lib magic (filteradd_frame ++ []) ≡ raised type_error
read_frame-filteradd_example =
    read_frame-filteradd lib magic (record { bytes = 9 ∷ [] }) filteradd_frame [] refl
      (λ s. omega arith) filteradd_is_built (omega arith)
