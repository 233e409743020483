-- ===== src/Identity/PublicAddress.antt =====
-- identity/publicaddress.go: keys with the version and the stream of their address.
use bmutil.Common.{
  ℕ, ◌≡◌, refl, ltb, if◌then◌else◌, Option, none, some, Bytes, if_either, ap, sym, arith, ◌≤◌, ◌==◌,
  ◌||◌, ◌⊎◌, false,
}
use bmutil.Error.{Result, returned, failed}
use bmutil.Crypto.{Library}
use bmutil.Address
use bmutil.Address.{Address, new_address, new_depricated_address, ripe_hash}
use bmutil.Identity.{PublicKey, hash}
use bmutil.Address.Decoded.{IsVersion}

module _ (L : Library) where
  pub record PublicAddress : Type 0 where
    pub public_key : PublicKey L
    pub version : ℕ
    pub stream : ℕ

  -- `address`
  unfoldable pub address : PublicAddress → Result Address
  address id =
      if ltb id.version 4
      then new_depricated_address id.version id.stream (hash L id.public_key)
      else new_address id.version id.stream (hash L id.public_key)

  abbrev without_error : Result Address → Option Address
  without_error (returned a) = some a
  without_error (failed e) = none

  -- `Address`, which is nil where `address` fails
  unfoldable pub full_address : PublicAddress → Option Address
  unfolding address
  full_address id = without_error (address id)

  abbrev checked : PublicAddress → Result Address → Result PublicAddress
  checked id (returned a) = returned id
  checked id (failed e) = failed e

  unfoldable pub new_public_address : PublicKey L → ℕ → ℕ → Result PublicAddress
  unfolding address
  new_public_address public version stream =
      let id : PublicAddress = record { public_key = public; version = version; stream = stream } in
      checked id (address id)

-- An address of the program keeps what it is made of, and has one of the versions 2, 3 and 4.
abbrev Keeps : ℕ → ℕ → Bytes → Result Address → Type 0
Keeps v s r (returned a) =
    (Address.version a ≡ v)
    × (Address.stream a ≡ s)
    × (ripe_hash a ≡ r)
    × (2 ≤ v)
    × (v ≤ 4)
    × IsVersion a
Keeps v s r (failed e) = Unit

Keeps-new_address : (v s : ℕ) (r : Bytes) → Keeps v s r (new_address v s r)
unfolding new_address
Keeps-new_address v s r =
    if_either (Keeps v s r) (ltb 4 v) (λ _. tt)
      (λ small.
        if_either (Keeps v s r) (ltb v 4) (λ _. tt)
          (λ large.
            let four : v ≡ 4 = ground arith in
            if_either (Keeps v s r) (s == 1)
              (λ _. (sym four, refl, refl, omega arith, omega arith, tt)) (λ _. tt)))

two_or_three : (v : ℕ) → (ltb v 2 || ltb 3 v) ≡ false → (v ≡ 2) ⊎ (v ≡ 3)
two_or_three v h = ground arith

Keeps-new_depricated_address : (v s : ℕ) (r : Bytes) → Keeps v s r (new_depricated_address v s r)
unfolding new_depricated_address
Keeps-new_depricated_address v s r =
    if_either (Keeps v s r) (ltb v 2 || ltb 3 v) (λ _. tt)
      (λ h. (refl, refl, refl, ground arith, ground arith, two_or_three v h))

module _ (L : Library) (id : PublicAddress L) where
  Keeps-address : Keeps id.version id.stream (hash L id.public_key) (address L id)
  unfolding address
  Keeps-address =
      if_either (Keeps id.version id.stream (hash L id.public_key)) (ltb id.version 4)
        (λ _. Keeps-new_depricated_address _ _ _) (λ _. Keeps-new_address _ _ _)

  -- The fields of the address that an identity has
  pub record Fields (a : Address) : Type 0 where
    pub version_is : Address.version a ≡ id.version
    pub stream_is : Address.stream a ≡ id.stream
    pub ripe_is : ripe_hash a ≡ hash L id.public_key
    pub version_ge : 2 ≤ id.version
    pub version_le : id.version ≤ 4
    pub version_known : IsVersion a

  read_off :
      (r : Result Address) (a : Address)
      → Keeps id.version id.stream (hash L id.public_key) r
      → without_error L r ≡ some a
      → (r ≡ returned a) × Fields a
  read_off (returned b) a h e =
      let same : b ≡ a = cc in
      let fields : Fields b = record {
        version_is = h.0;
        stream_is = h.1;
        ripe_is = h.2;
        version_ge = h.3;
        version_le = h.4;
        version_known = h.5;
      } in
      (ap returned same, rw same at fields)
  read_off (failed e') a h e = absurd (cc)

  pub address-Fields : (a : Address) → full_address L id ≡ some a → Fields a
  unfolding full_address
  address-Fields a e = (read_off (address L id) a Keeps-address e).1

  pub full_address-address : (a : Address) → full_address L id ≡ some a → address L id ≡ returned a
  unfolding full_address
  full_address-address a e = (read_off (address L id) a Keeps-address e).0

  -- An identity with an address is made again of its keys, its version and its stream.
  pub new_public_address-again :
      (a : Address)
      → full_address L id ≡ some a
      → new_public_address L id.public_key id.version id.stream ≡ returned id
  unfolding new_public_address
  new_public_address-again a e = rw (full_address-address a e) refl

module _ (L : Library) (public : PublicKey L) (version stream : ℕ) where
  checked_made :
      (id a : PublicAddress L) (r : Result Address)
      → checked L id r ≡ returned a
      → (id ≡ a) × (addr : Address) × (without_error L r ≡ some addr)
  checked_made id a (returned addr) e = (cc, addr, refl)
  checked_made id a (failed e') e = absurd (cc)

  -- What is made holds its parts, and it has an address.
  pub new_public_address-made :
      (a : PublicAddress L)
      → new_public_address L public version stream ≡ returned a
      → (a ≡ record { public_key = public; version = version; stream = stream })
        × (addr : Address) × (full_address L a ≡ some addr)
  unfolding new_public_address full_address
  new_public_address-made a e =
      let id : PublicAddress L = record {
        public_key = public;
        version = version;
        stream = stream;
      } in
      let m = checked_made id a (address L id) e in (sym m.0, m.1, rw (← m.0) m.2)
