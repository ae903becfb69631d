-- ===== src/Protocol/Names.antt =====
-- The names of the messages, the attributes `msgtype` of their classes.
use mutiny_net.Prelude.{ℕ, List, [], ◌∷◌}

abbrev pub name_of_addr : List ℕ
name_of_addr = b'a' ∷ b'd' ∷ b'd' ∷ b'r' ∷ []

abbrev pub name_of_addrv2 : List ℕ
name_of_addrv2 = b'a' ∷ b'd' ∷ b'd' ∷ b'r' ∷ b'v' ∷ b'2' ∷ []

abbrev pub name_of_block : List ℕ
name_of_block = b'b' ∷ b'l' ∷ b'o' ∷ b'c' ∷ b'k' ∷ []

abbrev pub name_of_blocktxn : List ℕ
name_of_blocktxn = b'b' ∷ b'l' ∷ b'o' ∷ b'c' ∷ b'k' ∷ b't' ∷ b'x' ∷ b'n' ∷ []

abbrev pub name_of_cfcheckpt : List ℕ
name_of_cfcheckpt = b'c' ∷ b'f' ∷ b'c' ∷ b'h' ∷ b'e' ∷ b'c' ∷ b'k' ∷ b'p' ∷ b't' ∷ []

abbrev pub name_of_cfheaders : List ℕ
name_of_cfheaders = b'c' ∷ b'f' ∷ b'h' ∷ b'e' ∷ b'a' ∷ b'd' ∷ b'e' ∷ b'r' ∷ b's' ∷ []

abbrev pub name_of_cfilter : List ℕ
name_of_cfilter = b'c' ∷ b'f' ∷ b'i' ∷ b'l' ∷ b't' ∷ b'e' ∷ b'r' ∷ []

abbrev pub name_of_cmpctblock : List ℕ
name_of_cmpctblock = b'c' ∷ b'm' ∷ b'p' ∷ b'c' ∷ b't' ∷ b'b' ∷ b'l' ∷ b'o' ∷ b'c' ∷ b'k' ∷ []

abbrev pub name_of_feefilter : List ℕ
name_of_feefilter = b'f' ∷ b'e' ∷ b'e' ∷ b'f' ∷ b'i' ∷ b'l' ∷ b't' ∷ b'e' ∷ b'r' ∷ []

abbrev pub name_of_filteradd : List ℕ
name_of_filteradd = b'f' ∷ b'i' ∷ b'l' ∷ b't' ∷ b'e' ∷ b'r' ∷ b'a' ∷ b'd' ∷ b'd' ∷ []

abbrev pub name_of_filterclear : List ℕ
name_of_filterclear =
    b'f' ∷ b'i' ∷ b'l' ∷ b't' ∷ b'e' ∷ b'r' ∷ b'c' ∷ b'l' ∷ b'e' ∷ b'a' ∷ b'r' ∷ []

abbrev pub name_of_filterload : List ℕ
name_of_filterload = b'f' ∷ b'i' ∷ b'l' ∷ b't' ∷ b'e' ∷ b'r' ∷ b'l' ∷ b'o' ∷ b'a' ∷ b'd' ∷ []

abbrev pub name_of_getaddr : List ℕ
name_of_getaddr = b'g' ∷ b'e' ∷ b't' ∷ b'a' ∷ b'd' ∷ b'd' ∷ b'r' ∷ []

abbrev pub name_of_getblocks : List ℕ
name_of_getblocks = b'g' ∷ b'e' ∷ b't' ∷ b'b' ∷ b'l' ∷ b'o' ∷ b'c' ∷ b'k' ∷ b's' ∷ []

abbrev pub name_of_getblocktxn : List ℕ
name_of_getblocktxn =
    b'g' ∷ b'e' ∷ b't' ∷ b'b' ∷ b'l' ∷ b'o' ∷ b'c' ∷ b'k' ∷ b't' ∷ b'x' ∷ b'n' ∷ []

abbrev pub name_of_getcfcheckpt : List ℕ
name_of_getcfcheckpt =
    b'g' ∷ b'e' ∷ b't' ∷ b'c' ∷ b'f' ∷ b'c' ∷ b'h' ∷ b'e' ∷ b'c' ∷ b'k' ∷ b'p' ∷ b't' ∷ []

abbrev pub name_of_getcfheaders : List ℕ
name_of_getcfheaders =
    b'g' ∷ b'e' ∷ b't' ∷ b'c' ∷ b'f' ∷ b'h' ∷ b'e' ∷ b'a' ∷ b'd' ∷ b'e' ∷ b'r' ∷ b's' ∷ []

abbrev pub name_of_getcfilters : List ℕ
name_of_getcfilters =
    b'g' ∷ b'e' ∷ b't' ∷ b'c' ∷ b'f' ∷ b'i' ∷ b'l' ∷ b't' ∷ b'e' ∷ b'r' ∷ b's' ∷ []

abbrev pub name_of_getdata : List ℕ
name_of_getdata = b'g' ∷ b'e' ∷ b't' ∷ b'd' ∷ b'a' ∷ b't' ∷ b'a' ∷ []

abbrev pub name_of_getheaders : List ℕ
name_of_getheaders = b'g' ∷ b'e' ∷ b't' ∷ b'h' ∷ b'e' ∷ b'a' ∷ b'd' ∷ b'e' ∷ b'r' ∷ b's' ∷ []

abbrev pub name_of_headers : List ℕ
name_of_headers = b'h' ∷ b'e' ∷ b'a' ∷ b'd' ∷ b'e' ∷ b'r' ∷ b's' ∷ []

abbrev pub name_of_inv : List ℕ
name_of_inv = b'i' ∷ b'n' ∷ b'v' ∷ []

abbrev pub name_of_mempool : List ℕ
name_of_mempool = b'm' ∷ b'e' ∷ b'm' ∷ b'p' ∷ b'o' ∷ b'o' ∷ b'l' ∷ []

abbrev pub name_of_merkleblock : List ℕ
name_of_merkleblock =
    b'm' ∷ b'e' ∷ b'r' ∷ b'k' ∷ b'l' ∷ b'e' ∷ b'b' ∷ b'l' ∷ b'o' ∷ b'c' ∷ b'k' ∷ []

abbrev pub name_of_notfound : List ℕ
name_of_notfound = b'n' ∷ b'o' ∷ b't' ∷ b'f' ∷ b'o' ∷ b'u' ∷ b'n' ∷ b'd' ∷ []

abbrev pub name_of_ping : List ℕ
name_of_ping = b'p' ∷ b'i' ∷ b'n' ∷ b'g' ∷ []

abbrev pub name_of_pong : List ℕ
name_of_pong = b'p' ∷ b'o' ∷ b'n' ∷ b'g' ∷ []

abbrev pub name_of_sendaddrv2 : List ℕ
name_of_sendaddrv2 = b's' ∷ b'e' ∷ b'n' ∷ b'd' ∷ b'a' ∷ b'd' ∷ b'd' ∷ b'r' ∷ b'v' ∷ b'2' ∷ []

abbrev pub name_of_sendcmpct : List ℕ
name_of_sendcmpct = b's' ∷ b'e' ∷ b'n' ∷ b'd' ∷ b'c' ∷ b'm' ∷ b'p' ∷ b'c' ∷ b't' ∷ []

abbrev pub name_of_sendheaders : List ℕ
name_of_sendheaders =
    b's' ∷ b'e' ∷ b'n' ∷ b'd' ∷ b'h' ∷ b'e' ∷ b'a' ∷ b'd' ∷ b'e' ∷ b'r' ∷ b's' ∷ []

abbrev pub name_of_sendtxrcncl : List ℕ
name_of_sendtxrcncl =
    b's' ∷ b'e' ∷ b'n' ∷ b'd' ∷ b't' ∷ b'x' ∷ b'r' ∷ b'c' ∷ b'n' ∷ b'c' ∷ b'l' ∷ []

abbrev pub name_of_tx : List ℕ
name_of_tx = b't' ∷ b'x' ∷ []

abbrev pub name_of_verack : List ℕ
name_of_verack = b'v' ∷ b'e' ∷ b'r' ∷ b'a' ∷ b'c' ∷ b'k' ∷ []

abbrev pub name_of_version : List ℕ
name_of_version = b'v' ∷ b'e' ∷ b'r' ∷ b's' ∷ b'i' ∷ b'o' ∷ b'n' ∷ []

abbrev pub name_of_wtxidrelay : List ℕ
name_of_wtxidrelay = b'w' ∷ b't' ∷ b'x' ∷ b'i' ∷ b'd' ∷ b'r' ∷ b'e' ∷ b'l' ∷ b'a' ∷ b'y' ∷ []
