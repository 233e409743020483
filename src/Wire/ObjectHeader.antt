-- ===== src/Wire/ObjectHeader.antt =====
-- wire/objectheader.go: the header of an object message. A `time.Time` is the bit pattern of its
-- Unix seconds, an int64, so `Expiration` and the conversions of `NewObjectHeader` keep it.
use bmutil.Common.{ℕ, ◌^◌, ◌<◌, [], ◌∷◌, ◌++◌, Bytes, refl, ◌≡◌}
use bmutil.Stream.{◌>>=◌, ◌>>◌, pure, Reader, Writer}
use bmutil.Stream.Parses.{Parses, Parses-bind, Parses-map}
use bmutil.Stream.Emits.{Emits, Emits-bind}
use bmutil.Stream.Yields.{Yields, Yields-bind, Yields-pure}
use bmutil.Types.{IsU64, read_var_int, write_var_int}
use bmutil.Types.VarInt.{var_int, Parses-var_int, Emits-var_int, Yields-var_int}
use bmutil.Pow.{nonce_bytes, encode_nonce, decode_nonce, Emits-nonce, Parses-nonce, Yields-nonce}
use bmutil.Wire.Element.{uint64, object_type, Values, read_elements, write_elements}
use bmutil.Wire.Element.RoundTrip.{elements, Parses-elements, Emits-elements, Yields-elements}

pub record ObjectHeader : Type 0 where
  pub nonce : ℕ
  pub expiration : ℕ
  pub object_type : ℕ
  pub version : ℕ
  pub stream_number : ℕ

-- the known values of `ObjectType`
abbrev pub object_type_get_pub_key : ℕ
object_type_get_pub_key = 0

abbrev pub object_type_pub_key : ℕ
object_type_pub_key = 1

abbrev pub object_type_msg : ℕ
object_type_msg = 2

abbrev pub object_type_broadcast : ℕ
object_type_broadcast = 3

unfoldable pub new_object_header : ℕ → ℕ → ℕ → ℕ → ℕ → ObjectHeader
new_object_header nonce expiration kind version stream = record {
  nonce = nonce;
  expiration = expiration;
  object_type = kind;
  version = version;
  stream_number = stream;
}

-- what both writers put in front of the version
abbrev stamp : ObjectHeader → Values (uint64 ∷ object_type ∷ [])
stamp h = (h.expiration, (h.object_type, tt))

pub encode_for_signing : ObjectHeader → Writer
encode_for_signing h = do
  write_elements (uint64 ∷ object_type ∷ []) (stamp h)
  write_var_int h.version
  write_var_int h.stream_number

pub encode : ObjectHeader → Writer
encode h = do encode_nonce h.nonce; encode_for_signing h

-- `DecodeObjectHeader`
pub decode_object_header : Reader ObjectHeader
decode_object_header = do
  nonce ← decode_nonce
  es ← read_elements (uint64 ∷ object_type ∷ [])
  version ← read_var_int
  stream ← read_var_int
  pure (record {
    nonce = nonce;
    expiration = es.0;
    object_type = es.1.0;
    version = version;
    stream_number = stream;
  })

-- Each field fits its Go type.
pub record IsValid (h : ObjectHeader) : Type 0 where
  pub nonce_fits : IsU64 h.nonce
  pub expiration_fits : IsU64 h.expiration
  pub object_type_fits : h.object_type < 2 ^ 32
  pub version_fits : IsU64 h.version
  pub stream_fits : IsU64 h.stream_number

unfoldable pub signing_text : ObjectHeader → Bytes
signing_text h =
    elements (uint64 ∷ object_type ∷ []) (stamp h) ++ (var_int h.version ++ var_int h.stream_number)

unfoldable pub text : ObjectHeader → Bytes
text h = nonce_bytes h.nonce ++ signing_text h

pub Emits-signing : (h : ObjectHeader) → Emits (encode_for_signing h) (signing_text h)
unfolding encode_for_signing signing_text
Emits-signing h =
    Emits-bind _ (Emits-elements _ (stamp h)) (Emits-bind _ (Emits-var_int _) (Emits-var_int _))

pub Emits-encode : (h : ObjectHeader) → Emits (encode h) (text h)
unfolding encode text
Emits-encode h = Emits-bind _ (Emits-nonce h.nonce) (Emits-signing h)

-- `DecodeObjectHeader` reads back a header that `Encode` wrote.
pub Parses-decode : (h : ObjectHeader) → IsValid h → Parses decode_object_header (text h) h
unfolding decode_object_header text signing_text
Parses-decode h v = Parses-bind _ (Parses-nonce h.nonce v.nonce_fits) (
    Parses-bind _
      (Parses-elements (uint64 ∷ object_type ∷ []) (stamp h)
        (v.expiration_fits, (v.object_type_fits, tt)))
      (Parses-bind _ (Parses-var_int h.version v.version_fits)
        (Parses-map _ (Parses-var_int h.stream_number v.stream_fits) (λ r. refl))))

-- Every header that is read has fields in range.
pub Yields-header : Yields decode_object_header IsValid
unfolding decode_object_header
Yields-header = Yields-bind _ _ Yields-nonce (λ nonce n.
    Yields-bind _ _ (Yields-elements (uint64 ∷ object_type ∷ [])) (λ es e.
      Yields-bind _ _ Yields-var_int (λ version v. Yields-bind _ _ Yields-var_int (λ stream s.
        Yields-pure _ (record {
          nonce_fits = n;
          expiration_fits = e.0;
          object_type_fits = e.1.0;
          version_fits = v;
          stream_fits = s;
        })))))

-- A header with its fields in range is written as its nonce and what is signed, and read back from
-- that whatever follows; each proper prefix gives the end of the input.
header_round_trip :
    (h : ObjectHeader)
    → IsValid h
    → Emits (encode h) (text h)
      × Emits (encode_for_signing h) (signing_text h)
      × (text h ≡ nonce_bytes h.nonce ++ signing_text h)
      × Parses decode_object_header (text h) h
unfolding text
header_round_trip h v = (Emits-encode h, Emits-signing h, refl, Parses-decode h v)
