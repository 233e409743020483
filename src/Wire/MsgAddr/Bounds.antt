-- ===== src/Wire/MsgAddr/Bounds.antt =====
-- The limit of 1000 addresses holds of every message that the methods or `Decode` make.
use bmutil.Wire.NetAddress.RoundTrip
use bmutil.Wire.MsgAddr.{MsgAddr, max_addr_per_msg, add_address, add_addresses}
use bmutil.Common.{
  ◌+◌, ◌-◌, ◌≤◌, ◌≡◌, List, [], ◌∷◌, ◌++◌, length, take, leb, if◌then◌else◌, length-append, arith,
  append-nil, le→leb, Bool-cases, ltb, inl, inr, suc, append_assoc, All, All-append, ltb→ge,
}
use bmutil.Error.{too_many_addresses}
use bmutil.Stream.{state, ok, err}
use bmutil.Wire.NetAddress.{NetAddress}

-- At most 1000 addresses, each with its fields in range
pub record IsValid (msg : MsgAddr) : Type 0 where
  pub few : length msg.addr_list ≤ max_addr_per_msg
  pub each : All RoundTrip.IsValid msg.addr_list

-- Of a message of at most 1000 addresses with fields in range, and an address with fields in
-- range, `AddAddress` makes such a message, whatever it answers.
pub add_address-IsValid :
    (na : NetAddress) (msg : MsgAddr)
    → IsValid msg
    → RoundTrip.IsValid na
    → IsValid (state (add_address na msg))
unfolding add_address
add_address-IsValid na msg v h =
    elim (Bool-cases (ltb max_addr_per_msg (length msg.addr_list + 1))) [
      | inl full ↦ rw full v
      | inr fits ↦ rw fits (record {
        few = omega (arith, length-append msg.addr_list (na ∷ []), ltb→ge _ _ fits);
        each = All-append RoundTrip.IsValid msg.addr_list (na ∷ []) v.each (h, tt);
      })
    ]

-- To a message of at most 1000 addresses, `AddAddresses` adds all the addresses, in order, if they
-- fit under the limit. Else it adds those that fit, keeps them, and reports the error.
add_addresses_lem :
    (nas : List NetAddress) (msg : MsgAddr)
    → length msg.addr_list ≤ max_addr_per_msg
    → add_addresses nas msg ≡ (
        if leb (length msg.addr_list + length nas) max_addr_per_msg
        then ok tt (record { addr_list = msg.addr_list ++ nas })
        else err too_many_addresses (record {
          addr_list = msg.addr_list ++ take (max_addr_per_msg - length msg.addr_list) nas;
        }))
unfolding add_addresses add_address
add_addresses_lem [] msg h =
    rw (append-nil, le→leb (length msg.addr_list + 0) max_addr_per_msg (omega arith))
add_addresses_lem (na ∷ nas) msg h =
    let msg' : MsgAddr = record { addr_list = msg.addr_list ++ (na ∷ []) } in
    elim (Bool-cases (ltb max_addr_per_msg (length msg.addr_list + 1))) [
      | inl full ↦
          let none_left : max_addr_per_msg - length msg.addr_list ≡ 0 = ground arith in
          rw (full, none_left, append-nil) (ground arith)
      | inr fits ↦
          let one_more : max_addr_per_msg - length msg.addr_list
              ≡ suc (max_addr_per_msg - length msg'.addr_list) =
            ground (arith, length-append msg.addr_list (na ∷ [])) in
          rw (fits, one_more)
            (ground (
              arith,
              add_addresses_lem nas msg' (ground (arith, length-append msg.addr_list (na ∷ []))),
              length-append msg.addr_list (na ∷ []),
              append_assoc msg.addr_list (na ∷ []) nas,
              append_assoc msg.addr_list (na ∷ [])
                  (take (max_addr_per_msg - length msg'.addr_list) nas),
            ))
    ]
