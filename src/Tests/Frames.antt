-- ===== src/Tests/Frames.antt =====
-- `WriteMessageN` and `ReadMessageN` of wire/message.go, with a function of the sizes of SHA-512
use bmutil.Common.{
  ℕ, ◌≡◌, refl, [], ◌∷◌, ◌++◌, arith, length, Bytes, codes, copy_zeroed, ◌+◌, ◌<◌, ◌^◌, ◌≢◌,
}
use bmutil.Error.{payload_too_large, checksum_failed, other_network}
use bmutil.Stream.{ok, err, buffer, write}
use bmutil.Wire.Limits.{command_size, max_message_payload, message_header_size}
use bmutil.Wire.MsgInv.{MsgInv}
use bmutil.Wire.MsgInv.RoundTrip as Inv
use bmutil.Wire.MsgInv as InvModule
use bmutil.Wire.Known.{inv_msg, as_message, command_bytes, max_payload_length, Message, Command}
use bmutil.Wire.Known.Codec.{text, received}
use bmutil.Wire.Message.{read_message_n, write_message_n, checksum_of}
use bmutil.Wire.Message.Write.{frame, header_text, write_message_n_refuses}
use bmutil.Wire.Message.Read.{IsHeader}
use bmutil.Wire.Message.Resync.{Leaves, read_message_n_resumes}
use bmutil.Wire.Message.Accepted.{Kept, IsAccepted, read_message_n-accepts}
use bmutil.Wire.Message.Refused.{other_network_refused, wrong_checksum_refused}
use bmutil.Wire.Message.RoundTrip.{message_round_trip}
use bmutil.Tests.Inputs.{digest, digest_sized, digest_bytes, main_net, sha, sha-IsSha}
use bmutil.Binary.{put_be}
use bmutil.Wire.Loops.Counted.{counted_text}
use bmutil.Stream.Emits.{Emits-write}
use bmutil.Types.VarInt.{var_int}

abbrev one_inv : MsgInv
one_inv = record { inv_list = sha ∷ [] }

one_inv-IsValid : Inv.IsValid one_inv
one_inv-IsValid = record { few = omega arith; each = (sha-IsSha, tt) }

text_size : length (text (inv_msg one_inv)) ≡ 33
unfolding text Inv.text counted_text var_int
text_size = refl

inv_limit : max_payload_length Command.inv ≡ 1600009
unfolding max_payload_length InvModule.max_payload_length
inv_limit = refl

message_round_trip_example :
    (write_message_n digest
        (as_message (inv_msg one_inv))
        main_net
        (record { total = 0; stream = buffer [] })
      ≡ ok tt (record {
        total = 24 + length (text (inv_msg one_inv));
        stream =
            buffer (frame digest main_net (command_bytes Command.inv) (text (inv_msg one_inv)));
      }))
    × (read_message_n digest main_net (record {
      total = 0;
      stream =
          frame digest main_net (command_bytes Command.inv) (text (inv_msg one_inv)) ++ (1 ∷ []);
    })
        ≡ ok
            (received (inv_msg one_inv), text (inv_msg one_inv))
            (record { total = 24 + length (text (inv_msg one_inv)); stream = 1 ∷ [] }))
message_round_trip_example =
    message_round_trip digest digest_sized digest_bytes (inv_msg one_inv) main_net (1 ∷ [])
      one_inv-IsValid (omega arith) (omega (arith, text_size)) (omega (arith, text_size, inv_limit))

abbrev name : Bytes
name = copy_zeroed command_size (codes "inv")

abbrev sum : Bytes
sum = 1 ∷ 2 ∷ 3 ∷ 4 ∷ []

abbrev payload : Bytes
payload = 0 ∷ 9 ∷ []

inv-IsHeader : (size : ℕ) → size < 256 ^ 4 → IsHeader main_net name size sum
unfolding copy_zeroed
inv-IsHeader size h = (omega arith, ((refl, ground arith), (h, ((refl, ground arith), tt))))

read_message_n_resumes_example : Leaves (1 ∷ []) (
    read_message_n digest main_net
      (record { total = 0; stream = header_text main_net name 2 sum ++ (payload ++ (1 ∷ [])) }))
read_message_n_resumes_example =
    read_message_n_resumes digest main_net main_net 0 name sum payload (1 ∷ [])
      (inv-IsHeader 2 (omega arith)) (omega arith)

read_message_n-accepts_example :
    Kept IsAccepted
      (0 + (message_header_size + max_message_payload))
      (read_message_n digest main_net (record { total = 0; stream = payload }))
read_message_n-accepts_example =
    read_message_n-accepts digest main_net (record { total = 0; stream = payload }) (ground arith)

other_network_refused_example :
    read_message_n digest 7
      (record { total = 0; stream = header_text main_net name 2 sum ++ (payload ++ (1 ∷ [])) })
    ≡ err other_network (record { total = 0 + 24; stream = 1 ∷ [] })
other_network_refused_example =
    other_network_refused digest 7 main_net 0 name sum payload (1 ∷ [])
      (inv-IsHeader 2 (omega arith)) (omega arith) (omega arith)

other_sum : sum ≢ checksum_of digest payload
unfolding checksum_of copy_zeroed put_be
other_sum e = cc

wrong_checksum_refused_example :
    read_message_n digest main_net (record {
      total = 0;
      stream =
          header_text main_net (copy_zeroed command_size (command_bytes Command.inv)) 2 sum
          ++ (payload ++ (1 ∷ []));
    })
    ≡ err checksum_failed (record { total = 0 + 24 + 2; stream = 1 ∷ [] })
wrong_checksum_refused_example =
    wrong_checksum_refused digest Command.inv main_net 0 sum payload (1 ∷ [])
      (inv-IsHeader 2 (omega arith)) (omega arith) (omega (arith, inv_limit)) other_sum

-- A message with a limit of one byte and a payload of two
abbrev wide : Message
wide = record { command = codes "wide"; max_payload_length = 1; encode = write payload }

write_message_n_refuses_example :
    write_message_n digest wide main_net (record { total = 5; stream = buffer payload })
    ≡ err payload_too_large (record { total = 5; stream = buffer payload })
write_message_n_refuses_example =
    write_message_n_refuses digest wide payload main_net
      (record { total = 5; stream = buffer payload }) (Emits-write payload) (omega arith)
      (omega arith)
