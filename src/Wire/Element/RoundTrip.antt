-- ===== src/Wire/Element/RoundTrip.antt =====
-- What `WriteElements` writes, `ReadElements` reads back.
use bmutil.Wire.Element.{
  Kind, int32, uint32, object_type, int64, uint64, bool, checksum, command, ip, sha, ripe, pub_key,
  service_flag, bitmessage_net, Value, Values, read_element, write_element, read_elements,
  write_elements,
}
use bmutil.Common.{
  ℕ, ◌^◌, ◌<◌, ◌≡◌, refl, true, false, List, [], ◌∷◌, ◌++◌, Bytes, IsByte, All, length,
}
use bmutil.Stream.{◌>>=◌, pure}
use bmutil.Stream.Parses.{Parses, Parses-bind, Parses-map, Parses-pure, Parses-read_full}
use bmutil.Stream.Emits.{Emits, Emits-bind, Emits-pure, Emits-write}
use bmutil.Stream.Yields.{Yields, Yields-bind, Yields-pure, Yields-read_full}
use bmutil.Binary.{put_be, length-put_be, Parses-read_be, Yields-read_be}

-- The number of bytes of an element
abbrev pub width : Kind → ℕ
width int32 = 4
width uint32 = 4
width object_type = 4
width int64 = 8
width uint64 = 8
width bool = 1
width checksum = 4
width command = 12
width ip = 16
width sha = 32
width ripe = 20
width pub_key = 64
width service_flag = 8
width bitmessage_net = 4

-- The values of the Go type: a word is below 2 ^ w, an array has its length.
abbrev pub InRange : (k : Kind) → Value k → Type 0
InRange int32 e = e < 256 ^ 4
InRange uint32 e = e < 256 ^ 4
InRange object_type e = e < 256 ^ 4
InRange int64 e = e < 256 ^ 8
InRange uint64 e = e < 256 ^ 8
InRange bool e = Unit {0}
InRange checksum e = (length e ≡ 4) × All IsByte e
InRange command e = (length e ≡ 12) × All IsByte e
InRange ip e = (length e ≡ 16) × All IsByte e
InRange sha e = (length e ≡ 32) × All IsByte e
InRange ripe e = (length e ≡ 20) × All IsByte e
InRange pub_key e = (length e ≡ 64) × All IsByte e
InRange service_flag e = e < 256 ^ 8
InRange bitmessage_net e = e < 256 ^ 4

-- The text of an element
abbrev pub element : (k : Kind) → Value k → Bytes
element int32 e = put_be 4 e
element uint32 e = put_be 4 e
element object_type e = put_be 4 e
element int64 e = put_be 8 e
element uint64 e = put_be 8 e
element bool true = 1 ∷ []
element bool false = 0 ∷ []
element checksum e = e
element command e = e
element ip e = e
element sha e = e
element ripe e = e
element pub_key e = e
element service_flag e = put_be 8 e
element bitmessage_net e = put_be 4 e

pub Parses-element :
    (k : Kind) (e : Value k) → InRange k e → Parses (read_element k) (element k e) e
unfolding read_element
Parses-element int32 e h = Parses-read_be 4 e h
Parses-element uint32 e h = Parses-read_be 4 e h
Parses-element object_type e h = Parses-read_be 4 e h
Parses-element int64 e h = Parses-read_be 8 e h
Parses-element uint64 e h = Parses-read_be 8 e h
Parses-element bool true h = Parses-map _ (Parses-read_full (1 ∷ []) 1 refl) (λ r. refl)
Parses-element bool false h = Parses-map _ (Parses-read_full (0 ∷ []) 1 refl) (λ r. refl)
Parses-element checksum e h = Parses-read_full e 4 h.0
Parses-element command e h = Parses-read_full e 12 h.0
Parses-element ip e h = Parses-read_full e 16 h.0
Parses-element sha e h = Parses-read_full e 32 h.0
Parses-element ripe e h = Parses-read_full e 20 h.0
Parses-element pub_key e h = Parses-read_full e 64 h.0
Parses-element service_flag e h = Parses-read_be 8 e h
Parses-element bitmessage_net e h = Parses-read_be 4 e h

pub Emits-element : (k : Kind) (e : Value k) → Emits (write_element k e) (element k e)
unfolding write_element
Emits-element bool true = Emits-write (1 ∷ [])
Emits-element bool false = Emits-write (0 ∷ [])
Emits-element _ e = Emits-write _

pub Yields-element : (k : Kind) → Yields (read_element k) (InRange k)
unfolding read_element
Yields-element int32 = Yields-read_be 4
Yields-element uint32 = Yields-read_be 4
Yields-element object_type = Yields-read_be 4
Yields-element int64 = Yields-read_be 8
Yields-element uint64 = Yields-read_be 8
Yields-element bool = Yields-bind _ _ (Yields-read_full 1) (λ b h. Yields-pure _ tt)
Yields-element checksum = Yields-read_full 4
Yields-element command = Yields-read_full 12
Yields-element ip = Yields-read_full 16
Yields-element sha = Yields-read_full 32
Yields-element ripe = Yields-read_full 20
Yields-element pub_key = Yields-read_full 64
Yields-element service_flag = Yields-read_be 8
Yields-element bitmessage_net = Yields-read_be 4

pub length-element : (k : Kind) (e : Value k) → InRange k e → length (element k e) ≡ width k
length-element bool true h = refl
length-element bool false h = refl
length-element checksum e h = h.0
length-element command e h = h.0
length-element ip e h = h.0
length-element sha e h = h.0
length-element ripe e h = h.0
length-element pub_key e h = h.0
length-element int32 e h = length-put_be 4 e
length-element uint32 e h = length-put_be 4 e
length-element object_type e h = length-put_be 4 e
length-element bitmessage_net e h = length-put_be 4 e
length-element _ e h = length-put_be 8 e

abbrev pub AllInRange : (ks : List Kind) → Values ks → Type 0
AllInRange [] es = Unit {0}
AllInRange (k ∷ ks) es = InRange k es.0 × AllInRange ks es.1

abbrev pub elements : (ks : List Kind) → Values ks → Bytes
elements [] es = []
elements (k ∷ ks) es = element k es.0 ++ elements ks es.1

-- The fields that `WriteElements` wrote, `ReadElements` reads, in order.
pub Parses-elements :
    (ks : List Kind) (es : Values ks)
    → AllInRange ks es
    → Parses (read_elements ks) (elements ks es) es
unfolding read_elements
Parses-elements [] es h = Parses-pure tt
Parses-elements (k ∷ ks) es h =
    Parses-bind (λ e. read_elements ks >>= λ es. pure (e, es)) (Parses-element k es.0 h.0)
      (Parses-map (λ fs. pure (es.0, fs)) (Parses-elements ks es.1 h.1) (λ r. refl))

pub Emits-elements :
    (ks : List Kind) (es : Values ks) → Emits (write_elements ks es) (elements ks es)
unfolding write_elements
Emits-elements [] es = Emits-pure
Emits-elements (k ∷ ks) es =
    Emits-bind (write_elements ks es.1) (Emits-element k es.0) (Emits-elements ks es.1)

-- On any input of bytes `ReadElements` takes bytes from its front, and returns values in the range
-- of their types, or an error.
pub Yields-elements : (ks : List Kind) → Yields (read_elements ks) (AllInRange ks)
unfolding read_elements
Yields-elements [] = Yields-pure tt tt
Yields-elements (k ∷ ks) =
    Yields-bind (λ e. read_elements ks >>= λ es. pure (e, es)) _ (Yields-element k)
      (λ e h.
        Yields-bind (λ es. pure (e, es)) _ (Yields-elements ks)
          (λ es hs. Yields-pure (e, es) (h, hs)))

-- Fields in the range of their types are written by `WriteElements` one after the other, and
-- `ReadElements` for the same types reads them back whatever follows, and reports the end of the
-- input on each proper prefix.
elements_round_trip :
    (ks : List Kind) (es : Values ks)
    → AllInRange ks es
    → Emits (write_elements ks es) (elements ks es) × Parses (read_elements ks) (elements ks es) es
elements_round_trip ks es h = (Emits-elements ks es, Parses-elements ks es h)
