-- ===== src/Pow/Data.antt =====
-- pow/data.go and pow/constants.go: the difficulty that a public key asks for.
use bmutil.Common.{ℕ, ◌++◌, Bytes, refl}
use bmutil.Stream.{◌>>=◌, ◌>>◌, pure, Reader, Writer}
use bmutil.Stream.Parses.{Parses, Parses-bind, Parses-map}
use bmutil.Stream.Emits.{Emits, Emits-bind}
use bmutil.Types.{IsU64, read_var_int, write_var_int}
use bmutil.Types.VarInt.{var_int, Parses-var_int, Emits-var_int}

pub record Data : Type 0 where
  pub nonce_trials_per_byte : ℕ
  pub extra_bytes : ℕ

abbrev pub default_nonce_trials_per_byte : ℕ
default_nonce_trials_per_byte = 1000

abbrev pub default_extra_bytes : ℕ
default_extra_bytes = 1000

-- `pow.Default`
abbrev pub default_data : Data
default_data = record {
  nonce_trials_per_byte = default_nonce_trials_per_byte;
  extra_bytes = default_extra_bytes;
}

pub encode : Data → Writer
encode pd = do write_var_int pd.nonce_trials_per_byte; write_var_int pd.extra_bytes

pub decode : Reader Data
decode = do
  trials ← read_var_int
  extra ← read_var_int
  pure (record { nonce_trials_per_byte = trials; extra_bytes = extra })

pub record IsValid (pd : Data) : Type 0 where
  pub trials_fit : IsU64 pd.nonce_trials_per_byte
  pub extra_fit : IsU64 pd.extra_bytes

unfoldable pub text : Data → Bytes
text pd = var_int pd.nonce_trials_per_byte ++ var_int pd.extra_bytes

pub Emits-encode : (pd : Data) → Emits (encode pd) (text pd)
unfolding encode text
Emits-encode pd = Emits-bind _ (Emits-var_int _) (Emits-var_int _)

pub Parses-decode : (pd : Data) → IsValid pd → Parses decode (text pd) pd
unfolding decode text
Parses-decode pd v =
    Parses-bind _ (Parses-var_int _ v.trials_fit)
      (Parses-map _ (Parses-var_int _ v.extra_fit) (λ r. refl))

-- The two numbers of a public key's difficulty, each a uint64, are written, and read back from
-- their text whatever follows; each proper prefix of the text gives the end of the input.
data_round_trip :
    (pd : Data) → IsValid pd → Emits (encode pd) (text pd) × Parses decode (text pd) pd
data_round_trip pd v = (Emits-encode pd, Parses-decode pd v)
