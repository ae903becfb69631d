-- ===== src/Address/RoundTrip.antt =====
-- An address is read back as it was written.
use mutiny_net.Prelude.{
  ℕ, ◌≡◌, refl, sym, ap, subst, arith, Bool, true, false, List, [], ◌∷◌, ◌++◌, ◌==◌, ==_iff,
  if◌then◌else◌, inl, inr, ◌⊎◌, length, take, replicate,
}
use mutiny_net.Prelude.Result.{
  Exception, Result, ok, assertion_error, ok-injective, guard, ◌>>=◌, ◌>>◌,
}
use mutiny_net.Prelude.Texts.{but_last, take-append, ends_with-append, but_last-append}
use mathlib.Core.List.{append_assoc}
use mutiny_net.Bytes.{to_bytes}
use mutiny_net.Bytes.Reads.{Reads, Reads-bytes, Reads-int, Reads-nothing, Reads-exact}
use mutiny_net.Bytes.Parser.{
  Parser, call, Parses, Parses-always, Parses-append, Parses-give, Parses-call, Parses-assert,
  Reads-big,
}
use mutiny_net.Messages.Write.{ser_compact_size}
use mutiny_net.Messages.Parts.{Reads-compact_size}
use mutiny_net.Address.{
  net_ipv4, net_ipv6, net_torv3, net_i2p, net_cjdns, i2p_pad, onion, b32_i2p, checksum_prefix,
  Texts, CAddress, length_of, is_known, ser_address, bytes_of, ser_address_v2,
}
use mutiny_net.Address.Read.{read_time, deser_address, text_of, deser_address_v2}

-- A writer that raises unless a test holds
pub Parses-guard {ℓ} :
    {A : Type ℓ} {m : Result (List ℕ)} {d : Parser A} {a : A} (test : Bool) (e : Exception)
    → (test ≡ true → Parses m d a)
    → Parses (guard test e >> m) d a
Parses-guard true e p = p refl
Parses-guard false e p = record { back = λ s rest h. cc }

take-append_eq : (n : ℕ) (s t : List ℕ) → length s ≡ n → take n (s ++ t) ≡ s
take-append_eq n s t l = subst (λ (k : ℕ). take k (s ++ t) ≡ s) l (take-append s t)

net_cases :
    (net l : ℕ)
    → length_of net ≡ ok l
    → (net ≡ net_ipv4) ⊎ (net ≡ net_ipv6) ⊎ (net ≡ net_torv3) ⊎ (net ≡ net_i2p) ⊎ (net ≡ net_cjdns)
unfolding length_of
net_cases net l e = ground arith

-- What is left of an address in version 1
abbrev pub kept_time : Bool → CAddress → CAddress
kept_time with_time a = record a { time = if with_time then a.time else 0 }

module _ (lib : Texts) where
  -- The bytes behind the address of an onion service are dropped.
  onion_bytes :
      (b extra : List ℕ)
      → length b ≡ 32
      → (do b' ← lib.b32decode (but_last 6 (lib.b32_lower (b ++ extra) ++ onion)); ok (take 32 b'))
        ≡ ok b
  onion_bytes b extra l =
      rw (but_last-append (lib.b32_lower (b ++ extra)) onion, lib.b32decode-b32_lower (b ++ extra))
        (ap ok (take-append_eq 32 b extra l))

  i2p_bytes :
      (b : List ℕ)
      → length b ≡ 32
      → lib.b32decode (but_last 8 (but_last 4 (lib.b32_lower b) ++ b32_i2p) ++ i2p_pad) ≡ ok b
  i2p_bytes b l =
      let (t, e) = lib.b32_lower_padded b l in
      rw (but_last-append (but_last 4 (lib.b32_lower b)) b32_i2p, e, but_last-append t i2p_pad, ← e)
        (lib.b32decode-b32_lower b)

  -- A text that was made of the bytes of an address gives them again: on each network, and on all.
  abbrev Recovers : ℕ → Type 0
  Recovers net =
      (b ip : List ℕ)
      → length_of net ≡ ok (length b)
      → text_of lib net b ≡ ok ip
      → bytes_of lib net ip ≡ ok b

  ipv4-Recovers : Recovers net_ipv4
  unfolding text_of bytes_of
  ipv4-Recovers b ip l e = lib.inet_aton-inet_ntoa b ip e

  ipv6-Recovers : Recovers net_ipv6
  unfolding text_of bytes_of
  ipv6-Recovers b ip l e = lib.inet_pton-inet_ntop b ip e

  cjdns-Recovers : Recovers net_cjdns
  unfolding text_of bytes_of
  cjdns-Recovers b ip l e = lib.inet_pton-inet_ntop b ip e

  torv3-Recovers : Recovers net_torv3
  unfolding text_of bytes_of length_of
  torv3-Recovers b ip l e =
      subst (λ (t : List ℕ). bytes_of lib net_torv3 t ≡ ok b) (ok-injective e)
        (rw
          (
            append_assoc b (take 2 (lib.sha3 (checksum_prefix ++ b ++ 3 ∷ []))) (3 ∷ []),
            ends_with-append (lib.b32_lower _) onion,
          )
          (onion_bytes b (take 2 (lib.sha3 (checksum_prefix ++ b ++ 3 ∷ [])) ++ 3 ∷ [])
            (sym (ok-injective l))))

  i2p-Recovers : Recovers net_i2p
  unfolding text_of bytes_of length_of
  i2p-Recovers b ip l e =
      subst (λ (t : List ℕ). bytes_of lib net_i2p t ≡ ok b) (ok-injective e)
        (rw (ends_with-append (but_last 4 (lib.b32_lower b)) b32_i2p)
          (i2p_bytes b (sym (ok-injective l))))

  bytes_of-text_of : (net : ℕ) → Recovers net
  unfolding length_of
  bytes_of-text_of net b ip l e = elim (net_cases net (length b) l) [
    | inl h ↦ at ipv4-Recovers h
    | inr (inl h) ↦ at ipv6-Recovers h
    | inr (inr (inl h)) ↦ at torv3-Recovers h
    | inr (inr (inr (inl h))) ↦ at i2p-Recovers h
    | inr (inr (inr (inr h))) ↦ at cjdns-Recovers h
  ]
    where
      at : {k : ℕ} → Recovers k → net ≡ k → bytes_of lib net ip ≡ ok b
      at r h = subst Recovers (sym h) r b ip l e

  -- The text of an address is the one that the library makes of its bytes.
  abbrev pub IsText : CAddress → Type 0
  IsText a = (b : List ℕ) × (length_of a.net ≡ ok (length b)) × (text_of lib a.net b ≡ ok a.ip)

  is_known-of : (net l : ℕ) → length_of net ≡ ok l → is_known net ≡ true
  unfolding is_known length_of
  is_known-of net l e = ground arith

  Reads-length :
      (net l : ℕ)
      → length_of net ≡ ok l
      → (do k ← length_of net; ser_compact_size k) ≡ ser_compact_size l
  Reads-length net l e = rw e refl

  pub Parses-address_v2 :
      (a : CAddress) → IsText a → Parses (ser_address_v2 lib a) (deser_address_v2 lib) a
  unfolding ser_address_v2 deser_address_v2 call
  Parses-address_v2 a (b, l, e) = rw (Reads-length a.net (length b) l) (
      Parses-guard (is_known a.net) assertion_error λ known.
        Parses-append _ (Parses-always (Reads-int 4 a.time)) (
          Parses-append _ (Parses-always (Reads-compact_size a.n_services)) (
            Parses-append _ (Parses-always (Reads-int 1 a.net)) (
              Parses-assert assertion_error known (
                Parses-append _ (Parses-always (Reads-compact_size (length b))) (
                  Parses-call _ l (
                    Parses-assert assertion_error ((==_iff (length b) _).1 refl) (
                      Parses-append _
                        (Parses-always
                          (Reads-exact (length b) (bytes_of-text_of a.net b a.ip l e) refl))
                        (Parses-call _ e (
                          Parses-give _ (Parses-always (Reads-big 2 a.port))
                            (λ rest. refl)))))))))))

  -- The text of an IPv4 address
  abbrev pub IsIpv4 : CAddress → Type 0
  IsIpv4 a = (b : List ℕ) × (a.net ≡ net_ipv4) × (length b ≡ 4) × (lib.inet_ntoa b ≡ ok a.ip)

  Reads-time :
      (with_time : Bool) (a : CAddress)
      → Reads
          (if with_time then to_bytes 4 a.time else ok [])
          (read_time with_time)
          (if with_time then a.time else 0)
  unfolding read_time
  Reads-time true a = Reads-int 4 a.time
  Reads-time false a = Reads-nothing 0

  pub Parses-address :
      (with_time : Bool) (a : CAddress)
      → IsIpv4 a
      → Parses (ser_address lib with_time a) (deser_address lib with_time) (kept_time with_time a)
  unfolding ser_address deser_address call
  Parses-address with_time a (b, n, l, e) =
      subst
        (λ (net : ℕ).
          Parses (ser_address lib with_time a) (deser_address lib with_time)
            (record (kept_time with_time a) { net = net }))
        (sym n)
        (Parses-guard (a.net == net_ipv4) assertion_error λ known.
          Parses-append _ (Parses-always (Reads-time with_time a)) (
            Parses-append _ (Parses-always (Reads-int 8 a.n_services)) (
              Parses-append _ (Parses-always (Reads-bytes (replicate 10 0 ++ replicate 2 255))) (
                Parses-append _ (Parses-always (Reads-exact 4 (lib.inet_aton-inet_ntoa b a.ip e) l))
                  (Parses-call _ e
                    (Parses-give _ (Parses-always (Reads-big 2 a.port)) (λ rest. refl)))))))

-- An address whose text is the one that the library makes of its bytes, with as many bytes as its
-- network has, is read back in the format of version 2 if it can be written; whatever follows it is
-- left.
pub deser_address_v2-ser_address_v2 :
    (lib : Texts) (a : CAddress) (s rest : List ℕ)
    → IsText lib a
    → ser_address_v2 lib a ≡ ok s
    → deser_address_v2 lib (s ++ rest) ≡ ok (a, rest)
deser_address_v2-ser_address_v2 lib a s rest t e = (Parses-address_v2 lib a t).back s rest e
