-- ===== src/Wire/Obj/Payload.antt =====
-- What the objects of wire/obj share: the checks at the front of their `Decode`, and their `Payload`
-- beside their `Encode`.
use bmutil.Common.{ℕ, ◌≡◌, [], ◌++◌, Bytes, ◌==◌, if◌then◌else◌, ==_iff, true}
use bmutil.Error.{wrong_object_type, wrong_object_version}
use bmutil.Stream.{ok, ◌>>=◌, ◌>>◌, fail, Reader, Writer, buffer, state, written}
use bmutil.Wire.ObjectHeader.{ObjectHeader, decode_object_header}
use bmutil.Wire.MsgObject.{MsgObject}
use bmutil.Wire.MsgObject
use bmutil.Wire.ObjectHeader
use bmutil.Stream.Parses.{Parses, Parses-bind}
use bmutil.Stream.Emits.{Emits, Emits-bind, Emits-buffer}

-- `Decode`: the header, the checks of its type and of its version, and `decodePayload`
abbrev pub decode_as {ℓ} : {A : Type ℓ} → ℕ → ℕ → (ObjectHeader → Reader A) → Reader A
decode_as kind version decode_payload = do
  header ← decode_object_header
  if header.object_type == kind
      then (if header.version == version then decode_payload header else fail wrong_object_version)
      else fail wrong_object_type

-- `Payload`, where the error of `encodePayload` is dropped
abbrev pub payload_of : Writer → Bytes
payload_of encode_payload = written (state (encode_payload (buffer [])))

-- The text of an object: its header and its payload
abbrev pub object_text : ObjectHeader → Bytes → Bytes
object_text h payload = ObjectHeader.text h ++ payload

pub Emits-object :
    (h : ObjectHeader) (w : Writer) {payload : Bytes}
    → Emits w payload
    → Emits (ObjectHeader.encode h >> w) (object_text h payload)
Emits-object h w e = Emits-bind w (ObjectHeader.Emits-encode h) e

pub payload_of-Emits : (w : Writer) {payload : Bytes} → Emits w payload → payload_of w ≡ payload
unfolding written
payload_of-Emits w {payload} e = rw (Emits-buffer w payload [] e)

-- The view of an object as a header and a payload has the text that `Encode` makes.
pub text-payload_of :
    (h : ObjectHeader) (w : Writer) {payload : Bytes}
    → Emits w payload
    → MsgObject.text (record { header = h; payload = payload_of w }) ≡ object_text h payload
unfolding MsgObject.text
text-payload_of h w e = rw (payload_of-Emits w e)

-- An object of the expected type and version passes the checks.
module _ {ℓ} {A : Type ℓ} (kind version : ℕ) (h : ObjectHeader) (valid : ObjectHeader.IsValid h)
    (is_kind : h.object_type ≡ kind) (is_version : h.version ≡ version)
    (p : ObjectHeader → Reader A) where
  kind_passes : (h.object_type == kind) ≡ true
  kind_passes = (==_iff h.object_type kind).1 is_kind

  version_passes : (h.version == version) ≡ true
  version_passes = (==_iff h.version version).1 is_version

  -- A payload that is read whatever follows
  pub Parses-decode_as :
      {payload : Bytes} {v : A}
      → Parses (p h) payload v
      → Parses (decode_as kind version p) (object_text h payload) v
  Parses-decode_as P =
      Parses-bind _ (ObjectHeader.Parses-decode h valid) (rw (kind_passes, version_passes) P)

  -- A payload that is read up to its end
  pub decode_as-text :
      {payload : Bytes} {v : A}
      → p h payload ≡ ok v []
      → decode_as kind version p (object_text h payload) ≡ ok v []
  decode_as-text {payload} e =
      rw (Parses.whole (ObjectHeader.Parses-decode h valid) payload, kind_passes, version_passes) e
