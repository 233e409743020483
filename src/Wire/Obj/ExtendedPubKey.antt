-- ===== src/Wire/Obj/ExtendedPubKey.antt =====
-- wire/obj/pubkey.go: `ExtendedPubKey`, a public key with its difficulty and a signature, and the
-- codec of that. A nil signature is the empty one.
use bmutil.Common.{
  ℕ, ◌≡◌, refl, [], ◌++◌, none, some, Bytes, length, ltb, leb, drop, take, copy_zeroed,
  if◌then◌else◌, append_assoc, ◌≤◌, arith, ge→ltb, ◌∷◌, append-nil,
}
use bmutil.Error.{signature_too_long}
use bmutil.Stream.{ok, err, ◌>>=◌, ◌>>◌, pure, fail, Reader, Writer, read_full, write, Outcome}
use bmutil.Types.{read_var_int, write_var_int}
use bmutil.Binary.{be_value}
use bmutil.Pow.Data as PowData
use bmutil.Wire.ObjectHeader.{ObjectHeader, new_object_header, object_type_pub_key}
use bmutil.Wire.ObjectHeader
use bmutil.Wire.MsgObject.{MsgObject}
use bmutil.Wire.Obj.Versions.{extended_pub_key_version, signature_max_length}
use bmutil.Wire.Obj.PubKeyData.{PubKeyData, simple_text, no_data, pow_or_default}
use bmutil.Wire.Obj.PubKeyData
use bmutil.Wire.Obj.Payload.{decode_as, payload_of, object_text, Emits-object, decode_as-text}
use bmutil.Types.VarBytes.{var_bytes}
use bmutil.Stream.Emits.{Emits, Emits-bind, Emits-write}
use bmutil.Stream.Parses.{Parses, Parses-bind, Parses-read_full, IsStarved}
use bmutil.Types.VarInt.{Emits-var_int, Parses-var_int}

unfoldable pub encode_pub_key_signature : Bytes → Writer
encode_pub_key_signature signature = do write_var_int (length signature); write signature

unfoldable pub decode_pub_key_signature : Reader Bytes
decode_pub_key_signature = do
  sig_length ← read_var_int
  if ltb signature_max_length sig_length then fail signature_too_long else read_full sig_length

pub record ExtendedPubKey : Type 0 where
  pub header : ObjectHeader
  pub key_data : PubKeyData
  pub signature : Bytes

unfoldable pub new_extended_pub_key : ℕ → ℕ → ℕ → PubKeyData → Bytes → ExtendedPubKey
new_extended_pub_key nonce expiration stream_number pk signature = record {
  header =
      new_object_header nonce expiration object_type_pub_key extended_pub_key_version stream_number;
  key_data = pk;
  signature = signature;
}

-- The numbers that a failing `pow.Data.Decode` has set
pub pow_left : Bytes → PowData.Data
pow_left r = elim (read_var_int r) [
  | ok trials rest ↦ record { nonce_trials_per_byte = trials; extra_bytes = 0 }
  | err e rest ↦ record { nonce_trials_per_byte = 0; extra_bytes = 0 }
]

-- What a failing `PubKeyData.Decode` has set of `&PubKeyData{}`: each array has the bytes that were
-- there for it
pub data_left : Bytes → PubKeyData
unfolding pow_left
data_left r = record {
  behavior = if leb 4 (length r) then be_value (take 4 r) else 0;
  verification = copy_zeroed 64 (drop 4 r);
  encryption = copy_zeroed 64 (drop 68 r);
  pow = if leb 132 (length r) then some (pow_left (drop 132 r)) else none;
}

-- `decodePayload` after the data `&PubKeyData{}` was read from `r`: an error of that is dropped, and
-- what was set of it is kept, with no signature.
pub after_data : ObjectHeader → Bytes → Outcome Bytes PubKeyData → Outcome Bytes ExtendedPubKey
unfolding decode_pub_key_signature data_left
after_data header r (ok pk rest) =
    (do
      signature ← decode_pub_key_signature
      pure (record { header = header; key_data = pk; signature = signature }))
      rest
after_data header r (err e rest) =
    ok (record { header = header; key_data = data_left r; signature = [] }) rest

pub decode_payload : ObjectHeader → Reader ExtendedPubKey
unfolding after_data
decode_payload header r = after_data header r (PubKeyData.decode no_data r)

unfoldable pub decode : Reader ExtendedPubKey
decode = decode_as object_type_pub_key extended_pub_key_version decode_payload

unfoldable pub encode_payload : ExtendedPubKey → Writer
unfolding encode_pub_key_signature
encode_payload p = do PubKeyData.encode p.key_data; encode_pub_key_signature p.signature

unfoldable pub encode : ExtendedPubKey → Writer
encode p = do ObjectHeader.encode p.header; encode_payload p

unfoldable pub encode_for_signing : ExtendedPubKey → Writer
encode_for_signing p = do ObjectHeader.encode_for_signing p.header; PubKeyData.encode p.key_data

unfoldable pub payload : ExtendedPubKey → Bytes
unfolding encode_payload
payload p = payload_of (encode_payload p)

unfoldable pub msg_object : ExtendedPubKey → MsgObject
unfolding payload
msg_object p = record { header = p.header; payload = payload p }

-- The header is that of such a key, its data has its fields in range, and its signature is within
-- its limit.
pub record IsValid (p : ExtendedPubKey) : Type 0 where
  pub header_valid : ObjectHeader.IsValid p.header
  pub is_pub_key : p.header.object_type ≡ object_type_pub_key
  pub is_extended : p.header.version ≡ extended_pub_key_version
  pub data_valid : PubKeyData.IsValid p.key_data
  pub signature_short : length p.signature ≤ signature_max_length

-- What the other side sees: a key with its difficulty spelt out
unfoldable pub received : ExtendedPubKey → ExtendedPubKey
received p = record p {
  key_data = record p.key_data { pow = some (pow_or_default p.key_data.pow) };
}

unfoldable pub text : ExtendedPubKey → Bytes
text p = PubKeyData.text p.key_data ++ var_bytes p.signature

pub Parses-signature :
    (s : Bytes) → length s ≤ signature_max_length → Parses decode_pub_key_signature (var_bytes s) s
unfolding decode_pub_key_signature var_bytes
Parses-signature s h =
    Parses-bind _ (Parses-var_int (length s) (omega arith))
      (rw (ge→ltb signature_max_length (length s) h) (Parses-read_full s (length s) refl))

pub Emits-signature : (s : Bytes) → Emits (encode_pub_key_signature s) (var_bytes s)
unfolding encode_pub_key_signature var_bytes
Emits-signature s = Emits-bind _ (Emits-var_int (length s)) (Emits-write s)

pub Emits-payload : (p : ExtendedPubKey) → Emits (encode_payload p) (text p)
unfolding encode_payload text
Emits-payload p = Emits-bind _ (PubKeyData.Emits-encode p.key_data) (Emits-signature p.signature)

-- The payload is read back, whatever follows it.
pub decode_payload-text :
    (p : ExtendedPubKey) (rest : Bytes)
    → IsValid p
    → decode_payload p.header (text p ++ rest) ≡ ok (received p) rest
unfolding decode_payload text received
decode_payload-text p rest v =
    rw
      (
        append_assoc,
        Parses.whole (PubKeyData.Parses-decode p.key_data no_data v.data_valid)
            (var_bytes p.signature ++ rest),
        Parses.whole (Parses-signature p.signature v.signature_short) rest,
      )
      refl

starved :
    (h : ObjectHeader) (r : Bytes) (o : Outcome Bytes PubKeyData)
    → IsStarved o
    → after_data h r o ≡ ok (record { header = h; key_data = data_left r; signature = [] }) []
unfolding after_data
starved h r (ok pk rest) q = absurd q
starved h r (err e rest) (q, ended) = rw ended refl

-- Of a key that is cut off within its data `Decode` reports no error: it returns a key with the
-- data that was there, zeros, and no signature.
pub cut_key_accepted :
    (p : ExtendedPubKey) (front : Bytes) (x : ℕ) (back : Bytes)
    → IsValid p
    → PubKeyData.text p.key_data ≡ front ++ (x ∷ back)
    → decode (object_text p.header front)
      ≡ ok (record { header = p.header; key_data = data_left front; signature = [] }) []
unfolding decode decode_payload
cut_key_accepted p front x back v cut =
    decode_as-text object_type_pub_key extended_pub_key_version p.header v.header_valid v.is_pub_key
      v.is_extended decode_payload
      (starved p.header front _
        (Parses.cut (PubKeyData.Parses-decode p.key_data no_data v.data_valid) front x back cut))

pub Emits-key_signing :
    (p : ExtendedPubKey)
    → Emits
        (encode_for_signing p)
        (ObjectHeader.signing_text p.header ++ PubKeyData.text p.key_data)
unfolding encode_for_signing
Emits-key_signing p =
    Emits-bind _ (ObjectHeader.Emits-signing p.header) (PubKeyData.Emits-encode p.key_data)

-- A valid key is written as its header, its data and its signature, and is signed without its nonce
-- and signature; `Decode` reads it back, with its difficulty spelt out.
pub extended_lem :
    (p : ExtendedPubKey)
    → IsValid p
    → Emits (encode p) (object_text p.header (text p))
      × Emits
          (encode_for_signing p)
          (ObjectHeader.signing_text p.header ++ PubKeyData.text p.key_data)
      × (decode (object_text p.header (text p)) ≡ ok (received p) [])
unfolding encode decode encode_for_signing
extended_lem p v = (
  Emits-object p.header _ (Emits-payload p),
  Emits-key_signing p,
  decode_as-text object_type_pub_key extended_pub_key_version p.header v.header_valid v.is_pub_key
      v.is_extended decode_payload (rw (append-nil (text p)) at (decode_payload-text p [] v)),
)
