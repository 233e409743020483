-- ===== src/Wire/NetAddress/RoundTrip.antt =====
-- `writeNetAddress` and `readNetAddress` on each other's output.
use bmutil.Wire.NetAddress.{
  NetAddress, zero_time, read_stamp, read_net_address, set_address, to16, wire_ip, write_stamp,
  write_net_address, max_net_address_payload,
}
use bmutil.Common.{
  ◌^◌, ◌<◌, ◌≡◌, refl, Bool, true, false, [], ◌∷◌, ◌++◌, Bytes, IsByte, All, length, arith,
  length-copy_zeroed, copy_zeroed_all, copy_zeroed-IsByte, length-append,
}
use bmutil.Stream.{ok}
use bmutil.Stream.Parses.{Parses, Parses-bind, Parses-map, Parses-pure}
use bmutil.Stream.Emits.{Emits, Emits-bind, Emits-pure, Emits-write}
use bmutil.Stream.Yields.{Yields, Yields-bind, Yields-pure}
use bmutil.Binary.{put_be, length-put_be, Parses-read_be, Yields-read_be}
use bmutil.Wire.Element.{uint32, uint64, service_flag, ip}
use bmutil.Wire.Element.RoundTrip.{elements, Parses-elements, Emits-elements, Yields-elements}

-- Each field fits its Go type.
pub record IsValid (na : NetAddress) : Type 0 where
  pub timestamp_fits : na.timestamp < 2 ^ 64
  pub stream_fits : na.stream < 2 ^ 32
  pub services_fit : na.services < 2 ^ 64
  pub addr_bytes : All IsByte na.addr
  pub port_fits : na.port < 2 ^ 16

-- What the other side sees: the IP in its 16 byte form, and in the short form of the version
-- message no timestamp and no stream.
unfoldable pub received : Bool → NetAddress → NetAddress
received true na = record na { addr = wire_ip na.addr }
received false na = record na { addr = wire_ip na.addr; timestamp = zero_time; stream = 0 }

stamp_text : Bool → NetAddress → Bytes
stamp_text true na = elements (uint64 ∷ uint32 ∷ []) (na.timestamp, (na.stream, tt))
stamp_text false na = []

unfoldable pub text : Bool → NetAddress → Bytes
unfolding stamp_text
text big na =
    stamp_text big na
    ++ (elements (service_flag ∷ ip ∷ []) (na.services, (wire_ip na.addr, tt)) ++ put_be 2 na.port)

pub length-wire_ip : (addr : Bytes) → length (wire_ip addr) ≡ 16
unfolding wire_ip
length-wire_ip addr = length-copy_zeroed 16 (to16 addr)

to16-IsByte : (addr : Bytes) → All IsByte addr → All IsByte (to16 addr)
unfolding to16
to16-IsByte addr h = ground arith

pub wire_ip-IsByte : (addr : Bytes) → All IsByte addr → All IsByte (wire_ip addr)
unfolding wire_ip
wire_ip-IsByte addr h = copy_zeroed-IsByte 16 (to16 addr) (to16-IsByte addr h)

wire_ip_full : (addr : Bytes) → length addr ≡ 16 → wire_ip addr ≡ addr
unfolding wire_ip
wire_ip_full addr h = rw (to16_full addr h) (copy_zeroed_all 16 addr h)
  where
    to16_full : (addr : Bytes) → length addr ≡ 16 → to16 addr ≡ addr
    to16_full addr h = unfold to16 in ground arith

-- The 16 byte form is kept.
pub wire_ip_idem : (addr : Bytes) → wire_ip (wire_ip addr) ≡ wire_ip addr
wire_ip_idem addr = wire_ip_full (wire_ip addr) (length-wire_ip addr)

Emits-stamp : (big : Bool) (na : NetAddress) → Emits (write_stamp big na) (stamp_text big na)
unfolding write_stamp stamp_text
Emits-stamp true na = Emits-elements _ _
Emits-stamp false na = Emits-pure

pub Emits-write_net_address :
    (na : NetAddress) (big : Bool) → Emits (write_net_address na big) (text big na)
unfolding write_net_address text
Emits-write_net_address na big =
    Emits-bind _ (Emits-stamp big na) (Emits-bind _ (Emits-elements _ _) (Emits-write _))

-- The first step of the reader, on what the first step of the writer made
Parses-stamp :
    (na : NetAddress) (big : Bool)
    → IsValid na
    → Parses
        (read_stamp big)
        (stamp_text big na)
        ((received big na).timestamp, (received big na).stream)
unfolding read_stamp stamp_text received
Parses-stamp na true v =
    Parses-map _
      (Parses-elements (uint64 ∷ uint32 ∷ []) (na.timestamp, (na.stream, tt))
        (v.timestamp_fits, (v.stream_fits, tt)))
      (λ r. refl)
Parses-stamp na false v = Parses-pure (zero_time, 0)

-- `readNetAddress` reads what the other side is to see of the address.
pub Parses-read_net_address :
    (na : NetAddress) (big : Bool)
    → IsValid na
    → Parses (read_net_address big) (text big na) (received big na)
unfolding read_net_address text
Parses-read_net_address na big v = Parses-bind _ (Parses-stamp na big v) (
    Parses-bind _
      (Parses-elements (service_flag ∷ ip ∷ []) (na.services, (wire_ip na.addr, tt))
        (v.services_fit, ((length-wire_ip na.addr, wire_ip-IsByte na.addr v.addr_bytes), tt)))
      (Parses-map _ (Parses-read_be 2 na.port v.port_fits) (λ r. rebuilt big r)))
  where
    rebuilt :
        (big : Bool) (r : Bytes)
        → ok
            (set_address
              (record {
                timestamp = (received big na).timestamp;
                stream = (received big na).stream;
                services = na.services;
                addr = [];
                port = 0;
              })
              (wire_ip na.addr)
              na.port)
            r
          ≡ ok (received big na) r
    rebuilt true r = unfold received in refl
    rebuilt false r = unfold received in refl

-- Sending what was received loses nothing more.
pub received_idem :
    (big : Bool) (na : NetAddress) → received big (received big na) ≡ received big na
unfolding received
received_idem true na = rw (wire_ip_idem na.addr)
received_idem false na = rw (wire_ip_idem na.addr)

-- An address takes `maxNetAddressPayload` bytes in the long form, and 26 in the short one.
pub length-text :
    (na : NetAddress)
    → (length (text true na) ≡ max_net_address_payload) × (length (text false na) ≡ 26)
unfolding text
length-text na = (
  simp (length-append, length-put_be, length-wire_ip),
  simp (length-append, length-put_be, length-wire_ip),
)

-- Every address that is read has its fields in range, and a 16 byte IP.
pub Yields-read_net_address : (big : Bool) → Yields (read_net_address big) IsValid
unfolding read_net_address
Yields-read_net_address big = Yields-bind _ _ (Yields-stamp big) (λ stamp h.
    Yields-bind _ _ (Yields-elements (service_flag ∷ ip ∷ [])) (λ es e.
      Yields-bind _ _ (Yields-read_be 2) (λ port q. Yields-pure _ (
        unfold set_address in
        record {
          timestamp_fits = h.0;
          stream_fits = h.1;
          services_fit = e.0;
          addr_bytes = e.1.0.1;
          port_fits = q;
        }))))
  where
    Yields-stamp : (big : Bool) → Yields (read_stamp big) (λ s. (s.0 < 2 ^ 64) × (s.1 < 2 ^ 32))
    Yields-stamp true =
        unfold read_stamp in
        Yields-bind _ _ (Yields-elements (uint64 ∷ uint32 ∷ []))
          (λ es e. Yields-pure _ (e.0, e.1.0))
    Yields-stamp false = unfold read_stamp in Yields-pure _ (omega arith)

-- An address with its fields in range is written in either form, in 38 or 26 bytes, and read back
-- with its IP in 16 bytes and, from the short form, with no timestamp and no stream. What was
-- received is received again unchanged.
net_address_round_trip :
    (na : NetAddress) (big : Bool)
    → IsValid na
    → Emits (write_net_address na big) (text big na)
      × Parses (read_net_address big) (text big na) (received big na)
      × (received big (received big na) ≡ received big na)
      × (length (text true na) ≡ max_net_address_payload)
      × (length (text false na) ≡ 26)
net_address_round_trip na big v = (
  Emits-write_net_address na big,
  Parses-read_net_address na big v,
  received_idem big na,
  (length-text na).0,
  (length-text na).1,
)
