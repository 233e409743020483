-- ===== src/Identity/PrivateKey.antt =====
-- identity/privatekey.go: the two private keys of an identity, and the searches that make them. An
-- endless `for` runs on fuel; the keys that `btcec.NewPrivateKey` returns one after another are a
-- function of the call's number.
pub mod Search
pub mod Random
use bmutil.Common.{
  ℕ, zero, suc, ◌+◌, ◌%◌, ◌^◌, ◌≡◌, [], ◌∷◌, ◌++◌, List, Bytes, Bool, true, false, not, Option,
  none, some, take, length, replicate, equal, ltb, leb, ◌==◌, if◌then◌else◌,
}
use bmutil.Error.{Result, returned, failed, few_initial_zeros, index_out_of_range, not_private}
use bmutil.Error.Results.{◌>>=◌}
use bmutil.Stream.{Sink, written, state, buffer, write, ◌>>◌}
use bmutil.Types.{write_var_int, first_byte}
use bmutil.Crypto.{Library}
use bmutil.Wif.{encode_wif}
use bmutil.Identity.{PublicKey, hash}

module _ (L : Library) where
  -- The struct `PrivateKey`
  pub record PrivateKey : Type 0 where
    pub signing : L.PrivKey
    pub decryption : L.PrivKey

  unfoldable pub public : PrivateKey → PublicKey L
  public pk = record { verification = L.pub_key pk.signing; encryption = L.pub_key pk.decryption }

  -- `Hash`
  unfoldable pub private_hash : PrivateKey → Bytes
  unfolding public
  private_hash pk = hash L (public pk)

  unfoldable pub export_wif : PrivateKey → Bytes × Bytes
  export_wif pk = (
    encode_wif L.sha256 L.base58_encode L.d_bytes pk.signing,
    encode_wif L.sha256 L.base58_encode L.d_bytes pk.decryption,
  )

  -- `bytes.Equal(pk.Hash()[0:initialZeros], initialZeroBytes)`, on a slice within the hash
  unfoldable pub found_hash : ℕ → PrivateKey → Bool
  unfolding private_hash
  found_hash initial_zeros pk =
      equal (take initial_zeros (private_hash pk)) (replicate initial_zeros 0)

  -- The test of a loop, whose slice panics where the hash is too short for it
  unfoldable pub test_hash : ℕ → PrivateKey → Result Bool
  unfolding found_hash
  test_hash initial_zeros pk =
      if ltb (length (private_hash pk)) initial_zeros
      then failed index_out_of_range
      else returned (found_hash initial_zeros pk)

  -- what a round of a loop does with the result of its test
  abbrev pub decide {ℓ} : {A : Type ℓ} → Result Bool → A → Option (Result A) → Option (Result A)
  decide (failed e) a rest = some (failed e)
  decide (returned true) a rest = some (returned a)
  decide (returned false) a rest = rest

  abbrev pub with_key :
      ℕ → L.PrivKey → Result L.PrivKey → Option (Result PrivateKey) → Option (Result PrivateKey)
  with_key initial_zeros signing (failed e) rest = some (failed e)
  with_key initial_zeros signing (returned decryption) rest =
      let pk : PrivateKey = record { signing = signing; decryption = decryption } in
      decide (test_hash initial_zeros pk) pk rest

  -- The loop of `NewRandom`, from the call `i` of `NewPrivateKey` on; `none` is out of fuel.
  unfoldable pub random_loop :
      (ℕ → Result L.PrivKey) → ℕ → L.PrivKey → ℕ → ℕ → Option (Result PrivateKey)
  random_loop keys initial_zeros signing zero i = none
  random_loop keys initial_zeros signing (suc fuel) i =
      let rest = random_loop keys initial_zeros signing fuel (suc i) in
      with_key initial_zeros signing (keys i) rest

  abbrev pub with_signing :
      (L.PrivKey → Option (Result PrivateKey)) → Result L.PrivKey → Option (Result PrivateKey)
  with_signing loop (failed e) = some (failed e)
  with_signing loop (returned signing) = loop signing

  -- `NewRandom`, where a negative number of zeros is as 0
  unfoldable pub new_random : (ℕ → Result L.PrivKey) → ℕ → ℕ → Option (Result PrivateKey)
  unfolding random_loop
  new_random keys fuel initial_zeros =
      if ltb initial_zeros 1
      then some (failed few_initial_zeros)
      else with_signing (λ signing. random_loop keys initial_zeros signing fuel 1) (keys 0)

  -- The key that `NewDeterministic` makes of a passphrase and a nonce
  unfoldable pub derived_key : Bytes → ℕ → L.PrivKey
  derived_key passphrase nonce =
      let b = written (state ((do write passphrase; write_var_int nonce) (buffer []))) in
      L.priv_key_from_bytes (take 32 (L.sha512 b))

  unfoldable pub derived : Bytes → ℕ → ℕ → PrivateKey
  unfolding derived_key
  derived passphrase signing_nonce decryption_nonce = record {
    signing = derived_key passphrase signing_nonce;
    decryption = derived_key passphrase decryption_nonce;
  }

-- A uint64 that goes up by 2
unfoldable pub next_nonce : ℕ → ℕ
next_nonce n = (n + 2) % 2 ^ 64

module _ (L : Library) where
  -- a key that was found, and the nonces that come next
  pub record Found : Type 0 where
    pub private_key : PrivateKey L
    pub signing_nonce : ℕ
    pub decryption_nonce : ℕ

  -- The inner loop of `NewDeterministic`
  unfoldable pub find_key : Bytes → ℕ → ℕ → ℕ → ℕ → Option (Result Found)
  unfolding next_nonce derived
  find_key passphrase initial_zeros zero s d = none
  find_key passphrase initial_zeros (suc fuel) s d =
      let pk = derived L passphrase s d in
      let rest = find_key passphrase initial_zeros fuel (next_nonce s) (next_nonce d) in
      let found : Found = record {
        private_key = pk;
        signing_nonce = next_nonce s;
        decryption_nonce = next_nonce d;
      } in
      decide L (test_hash L initial_zeros pk) found rest

  abbrev pub add_key :
      PrivateKey L → Option (Result (List (PrivateKey L))) → Option (Result (List (PrivateKey L)))
  add_key pk none = none
  add_key pk (some (failed e)) = some (failed e)
  add_key pk (some (returned pks)) = some (returned (pk ∷ pks))

  abbrev pub with_found :
      (ℕ → ℕ → Option (Result (List (PrivateKey L))))
      → Option (Result Found)
      → Option (Result (List (PrivateKey L)))
  with_found more none = none
  with_found more (some (failed e)) = some (failed e)
  with_found more (some (returned f)) =
      add_key (f.private_key) (more f.signing_nonce f.decryption_nonce)

  -- The outer loop, with the number of keys that are still to be made
  unfoldable pub find_keys : Bytes → ℕ → ℕ → ℕ → ℕ → ℕ → Option (Result (List (PrivateKey L)))
  unfolding find_key
  find_keys passphrase initial_zeros fuel zero s d = some (returned [])
  find_keys passphrase initial_zeros fuel (suc n) s d =
      with_found (λ s' d'. find_keys passphrase initial_zeros fuel n s' d')
        (find_key passphrase initial_zeros fuel s d)

  -- `NewDeterministic`, for a number of keys that is not negative
  unfoldable pub new_deterministic : ℕ → Bytes → ℕ → ℕ → Option (Result (List (PrivateKey L)))
  unfolding find_keys
  new_deterministic fuel passphrase initial_zeros n =
      if ltb initial_zeros 1
      then some (failed few_initial_zeros)
      else find_keys passphrase initial_zeros fuel n 0 1
