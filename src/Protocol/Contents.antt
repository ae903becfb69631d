-- ===== src/Protocol/Contents.antt =====
-- What a message says arrives: `serialize` of its class, and `deserialize` of the class that
-- `MESSAGEMAP` has for its name.
use mutiny_net.Prelude.{ℕ, ◌≡◌, List, ◌++◌, some}
use mutiny_net.Prelude.Result.{ok}
use mutiny_net.Bytes.Parser.{Parser}
use mutiny_net.Protocol.{Message, Library}
use mutiny_net.Protocol.Write.{serialize}
use mutiny_net.Protocol.Map.{message_map, find, msgtype}
use mutiny_net.Protocol.RoundTrip.{IsDeliverable, received, message-IsRead}

-- The bytes of a message, of any kind but `filteradd`, are read back by the class that stands under
-- its name in the map, and whatever follows them is left: if version 1 of an address is an IPv4
-- address, each text of an address is the one that the library makes, transactions have inputs, and
-- the lengths in a compact block are right.
pub deserialize-serialize :
    (lib : Library) (m : Message) (s rest : List ℕ)
    → IsDeliverable lib m
    → serialize lib m ≡ ok s
    → (parser : Parser Message) × (find (msgtype m) (message_map lib) ≡ some parser)
      × (parser (s ++ rest) ≡ ok (received lib m, rest))
deserialize-serialize lib m s rest d e =
    let r = message-IsRead lib m d in (r.parser, r.found, r.reads_back.back s rest e)
