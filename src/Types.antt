-- ===== src/Types.antt =====
-- types.go: variable length integers, strings and byte arrays. A `string` and a `[]byte` are
-- lists of bytes, and the limit `maxAllowed`, an `int` that every caller gives as a constant, is
-- a natural number.
pub mod VarInt
pub mod VarBytes
use bmutil.Common.{ℕ, ◌%◌, ◌^◌, ◌<◌, [], ◌∷◌, Bytes, length, ltb, leb, ◌==◌, if◌then◌else◌}
use bmutil.Error.{Error, var_string_too_long, var_bytes_too_long}
use bmutil.Stream.{◌>>=◌, ◌>>◌, pure, fail, Reader, Writer, read_full, write}
use bmutil.Binary.{put_be, read_be}

abbrev pub max_var_int_size : ℕ
max_var_int_size = 9

abbrev pub IsU64 : ℕ → Type 0
IsU64 v = v < 2 ^ 64

-- The `switch` of `ReadVarInt` on the first byte.
unfoldable pub by_discriminant : ℕ → Reader ℕ
by_discriminant d =
    if d == 0xff
    then read_be 8
    else if d == 0xfe
    then read_be 4
    else if d == 0xfd
    then read_be 2
    else pure d

-- `b[0]`, where `b` holds the one byte that was read
unfoldable pub first_byte : Bytes → ℕ
first_byte [] = 0
first_byte (b ∷ bs) = b

unfoldable pub read_var_int : Reader ℕ
unfolding by_discriminant first_byte
read_var_int = do b ← read_full 1; by_discriminant (first_byte b)

pub write_var_int : ℕ → Writer
write_var_int val =
    if ltb val 0xfd
    then write (val % 256 ∷ [])
    else if leb val 0xffff
    then write (0xfd ∷ put_be 2 val)
    else if leb val 0xffff_ffff
    then write (0xfe ∷ put_be 4 val)
    else write (0xff ∷ put_be 8 val)

unfoldable pub var_int_serialize_size : ℕ → ℕ
var_int_serialize_size val =
    if ltb val 0xfd then 1 else if leb val 0xffff then 3 else if leb val 0xffff_ffff then 5 else 9

-- `if count > uint64(maxAllowed)` with its error, else the allocation and the read
pub limited : Error → ℕ → ℕ → Reader Bytes
limited e max_allowed count = if ltb max_allowed count then fail e else read_full count

pub read_var_string : ℕ → Reader Bytes
unfolding limited
read_var_string max_allowed = do count ← read_var_int; limited var_string_too_long max_allowed count

pub write_var_string : Bytes → Writer
write_var_string str = do write_var_int (length str); write str

pub read_var_bytes : ℕ → Reader Bytes
unfolding limited
read_var_bytes max_allowed = do count ← read_var_int; limited var_bytes_too_long max_allowed count

pub write_var_bytes : Bytes → Writer
write_var_bytes bytes = do write_var_int (length bytes); write bytes
