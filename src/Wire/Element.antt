-- ===== src/Wire/Element.antt =====
-- wire/common.go: `ReadElement`, `WriteElement` and their plurals. The Go type of an element is a
-- `Kind`. An `int32` or `int64` is its bit pattern. The last resort of `ReadElement` and
-- `WriteElement`, `binary.Read` and `binary.Write` on some other type, is left out: the package
-- calls neither function with one.
pub mod RoundTrip
use bmutil.Common.{ℕ, Bool, true, false, not, List, [], ◌∷◌, Bytes, ◌==◌}
use bmutil.Stream.{◌>>=◌, ◌>>◌, pure, Reader, Writer, read_full, write}
use bmutil.Binary.{put_be, read_be}
use bmutil.Types.{first_byte}

-- `checksum`, `command` and `ip` are `[4]byte`, `[CommandSize]byte` and `[16]byte`.
pub data Kind : Type 0 where
  int32 uint32 object_type int64 uint64 bool : Kind
  checksum command ip sha ripe pub_key : Kind
  service_flag bitmessage_net : Kind

abbrev pub Value : Kind → Type 0
Value int32 = ℕ
Value uint32 = ℕ
Value object_type = ℕ
Value int64 = ℕ
Value uint64 = ℕ
Value bool = Bool
Value checksum = Bytes
Value command = Bytes
Value ip = Bytes
Value sha = Bytes
Value ripe = Bytes
Value pub_key = Bytes
Value service_flag = ℕ
Value bitmessage_net = ℕ

pub read_element : (k : Kind) → Reader (Value k)
unfolding first_byte
read_element int32 = read_be 4
read_element uint32 = read_be 4
read_element object_type = read_be 4
read_element int64 = read_be 8
read_element uint64 = read_be 8
read_element bool = do b ← read_full 1; pure (not (first_byte b == 0))
read_element checksum = read_full 4
read_element command = read_full 12
read_element ip = read_full 16
read_element sha = read_full 32
read_element ripe = read_full 20
read_element pub_key = read_full 64
read_element service_flag = read_be 8
read_element bitmessage_net = read_be 4

pub write_element : (k : Kind) → Value k → Writer
write_element int32 e = write (put_be 4 e)
write_element uint32 e = write (put_be 4 e)
write_element object_type e = write (put_be 4 e)
write_element int64 e = write (put_be 8 e)
write_element uint64 e = write (put_be 8 e)
write_element bool true = write (0x01 ∷ [])
write_element bool false = write (0x00 ∷ [])
write_element checksum e = write e
write_element command e = write e
write_element ip e = write e
write_element sha e = write e
write_element ripe e = write e
write_element pub_key e = write e
write_element service_flag e = write (put_be 8 e)
write_element bitmessage_net e = write (put_be 4 e)

-- The variadic argument of `ReadElements` and `WriteElements`
abbrev pub Values : List Kind → Type 0
Values [] = Unit {0}
Values (k ∷ ks) = Value k × Values ks

pub read_elements : (ks : List Kind) → Reader (Values ks)
read_elements [] = pure tt
read_elements (k ∷ ks) = do e ← read_element k; es ← read_elements ks; pure (e, es)

pub write_elements : (ks : List Kind) → Values ks → Writer
write_elements [] es = pure tt
write_elements (k ∷ ks) (e, es) = do write_element k e; write_elements ks es
