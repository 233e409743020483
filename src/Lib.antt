-- ===== src/Lib.antt =====
-- Verification of bmutil, the Go library of the Bitmessage protocol: its variable length codecs, the
-- package wire, which reads and writes the messages between peers, the objects that they carry,
-- addresses and keys as text, identities, the objects that are signed and encrypted, the encodings
-- of messages, and the search for a proof of work.
--
-- A message goes out through `WriteMessageN` of wire/message.go: its `Encode` method writes the
-- payload into a buffer, from the elements of wire/common.go and the variable length integers and
-- strings of types.go, and a frame goes round that. `ReadMessageN` reads a frame, checks it, makes
-- the message for its command with `makeEmptyMessage`, and runs that message's `Decode`.
--
-- The files and the code they are about:
--   Stream       `io.Reader`, `io.Writer`, `bytes.Buffer`, and the writer of wire/fixed/fixedIO.go;
--                Stream/Parses, Yields and Emits are the contracts that the codecs are held to
--   Binary       `encoding/binary`'s big endian words
--   Error        the errors, one for each place that makes one (wire/error.go)
--   Types        types.go: `ReadVarInt` is `read_var_int`, and so on
--   Pow          pow/nonce.go; Pow/Data pow/data.go and pow/constants.go; Pow/Target,
--                Search and Parallel pow/pow.go: `CalculateTarget`, then `Check` and `DoSequential`,
--                then `DoParallel` as a step relation: Safety its invariant, Progress, Schedule and
--                Panic orders of its goroutines, and Alone the case of one goroutine
--   Float        the float64 of pow/pow.go and identity/publicid.go
--   Address      address.go: the two kinds of address as one type, `String` is `to_string`
--   Format       format/encoding.go: `Read` is `read`; Format/Lines its regular expression
--   Wif          wif.go
--   Hash         hash/sha.go and hash/ripe.go, with hexadecimal texts
--   Crypto       what is taken from btcec, the hash functions and base58: `Library` has the
--                operations, and `IsLawful` their documented behaviour
--   Identity     identity/pubkey.go and identity/publickey.go; PublicAddress, PrivateAddress and
--                PrivateId the file of that name; PublicId identity/publicid.go and
--                identity/public.go, where `Encode` is `encode`; PrivateKey and Hd
--                identity/privatekey.go
--   Cipher       Data and Bitmessage are cipher/bitmessage.go; Message cipher/message.go, with
--                Message/Check its `verify` and `NewMessage`; Broadcast and PubKey the files of that
--                name, with their children Check; the functions of cipher/objects.go are in the three
--                Check and in PubKey/Received; Signing is what they share
--   Wire/Element, NetAddress, ObjectHeader, PubKey, InvVect, MsgAddr, MsgInv, MsgGetData, MsgObject,
--   MsgVersion, Empty (pong and verack)    the file of that name under wire/, wire/common.go for
--                Element; `decode` and `encode` are the methods `Decode` and `Encode`
--   Wire/MsgObject has `CheckPow` in a child module
--   Wire/Known   the interface `Message` and `makeEmptyMessage` of wire/message.go
--   Wire/Loops   the loops that write and read a counted list
--   Wire/Message the frames of wire/message.go: `WriteMessageN` is `write_message_n`, and
--                `ReadMessageN` is `read_message_n`; children Write, Read, Resync, Refused, Accepted,
--                Discard and RoundTrip
--   Wire/Obj     the objects: GetPubKey is wire/obj/getpubkey.go, PubKeyData is
--                wire/obj/pubkeydata.go, Encrypted is wire/obj/message.go, SimplePubKey,
--                ExtendedPubKey and EncryptedPubKey are wire/obj/pubkey.go, Broadcast is
--                wire/obj/broadcast.go, Versions the constants of both, and Dispatch is
--                wire/obj/object.go; Payload is what their methods share
--   Tests        runs at concrete inputs
--
-- A reader is the list of the bytes to come, and ends with an end of file; errors of the network
-- are not modelled. A call returns a value or an error with the state it leaves, so that what a
-- failing call has read or written can be stated. Numbers are natural numbers, with wrap-around
-- where the code narrows; signed numbers are their bit patterns. The loops recurse on their counts,
-- but for the search of `DoSequential`, which runs on fuel: as many rounds as the nonce that it
-- finds are enough. The clock and `hash.Sha512`, a call of `crypto/sha512`, are
-- arguments; that SHA-512 gives 64 bytes is a hypothesis where it is needed. SHA-256, base58 and
-- the calls of btcec are arguments too; that base58 decodes what it encodes is a hypothesis. For
-- identity and cipher they are the fields of a `Library`, and what their documents promise is
-- `IsLawful`: that a signature that was made is verified, that what was encrypted to a key is
-- decrypted with it, and that keys are made again of their bytes. The randomness of `Encrypt` is an
-- argument, and so are the keys of `NewPrivateKey`, one for each call. The searches of
-- identity/privatekey.go run on fuel, a round of the loop for each unit; the theorems on them say
-- which rounds are enough. A panic is an error of its own, and ends the steps of `DoParallel`.
-- What `uint64` makes of a float64 out of its range is an argument, too.
--
-- Not modelled: `DecodeMessage` of wire/obj/message.go, the generated format/serialize, and printed
-- forms. Pointers to keys, and the interfaces `Public` and `Encoding`, are not nil. `NewHD` has its
-- definition and no theorem.
pub mod Common
pub mod Error
pub mod Stream
pub mod Binary
pub mod Types
pub mod Pow
pub mod Tests
pub mod Wire
pub mod Address
pub mod Float
pub mod Format
pub mod Wif
pub mod Hash
pub mod Crypto
pub mod Identity
pub mod Cipher
