-- ===== src/Address/Decoded.antt =====
-- What `DecodeAddress` can return.
use bmutil.Common.{
  ℕ, ◌≡◌, ◌≤◌, ◌-◌, refl, [], ◌∷◌, ◌++◌, Bytes, length, arith, All, IsByte, false, ◌⊎◌, ◌||◌, ◌==◌,
  ltb, leb, length-append, length-replicate, copy_zeroed_all, take, drop, replicate,
  replicate-IsByte, All-append, All-take, if_either, equal, zero, suc,
}
use bmutil.Error.{Result, returned, failed}
use bmutil.Stream.{Outcome, ok, err}
use bmutil.Stream.Yields.{Yields, Yielded, Yields-bind, Yields-pure, All-suffix}
use bmutil.Types.{IsU64}
use bmutil.Types.VarInt.{Yields-var_int}
use bmutil.Pow.Search.{double_sha512}
use bmutil.Address.{
  Address, address_v4, depricated_address, stream, ripe_hash, pad, by_version, decode_v4,
  decode_depricated, read_ripe, read_front, then_ripe, decode_data, decode_address, without_prefix,
}

-- A ripe of 20 bytes, the first of them null
pub record IsRipe (ripe : Bytes) : Type 0 where
  pub sized : length ripe ≡ 20
  pub bytes : All IsByte ripe
  pub null_first : take 1 ripe ≡ 0 ∷ []

abbrev pub IsVersion : Address → Type 0
IsVersion (address_v4 s r) = Unit
IsVersion (depricated_address v s r) = (v ≡ 2) ⊎ (v ≡ 3)

pub record IsValid (addr : Address) : Type 0 where
  pub version_known : IsVersion addr
  pub stream_fits : IsU64 (stream addr)
  pub ripe_valid : IsRipe (ripe_hash addr)

abbrev pub Returns : Result Address → Type 0
Returns (returned a) = IsValid a
Returns (failed e) = Unit

first_null : (n : ℕ) (t : Bytes) → 1 ≤ n → take 1 (replicate n 0 ++ t) ≡ 0 ∷ []
first_null zero t h = absurd (omega arith)
first_null (suc n) t h = refl

pad-IsRipe : (t : Bytes) → length t ≤ 19 → All IsByte t → IsRipe (pad t)
unfolding pad
pad-IsRipe t h b =
    let padded : Bytes = replicate (20 - length t) 0 ++ t in
    let size : length padded ≡ 20 = omega (
      arith,
      length-append (replicate (20 - length t) zero) t,
      length-replicate (20 - length t) zero,
    ) in
    rw (copy_zeroed_all 20 padded size) (record {
      sized = size;
      bytes = All-append IsByte _ t (replicate-IsByte (20 - length t)) b;
      null_first = first_null (20 - length t) t (omega arith);
    })

size_range : (n k : ℕ) → (ltb 19 n || ltb n k) ≡ false → n ≤ 19
size_range n k h = ground arith

Returns-decode_v4 : (s : ℕ) (t : Bytes) → IsU64 s → All IsByte t → Returns (decode_v4 s t)
unfolding decode_v4
Returns-decode_v4 s [] hs b = tt
Returns-decode_v4 s (x ∷ t) hs b =
    if_either Returns (x == 0) (λ _. tt)
      (λ _.
        if_either Returns (ltb 19 (length (x ∷ t)) || ltb (length (x ∷ t)) 4) (λ _. tt)
          (λ fits. record {
            version_known = tt;
            stream_fits = hs;
            ripe_valid = pad-IsRipe (x ∷ t) (size_range (length (x ∷ t)) 4 fits) b;
          }))

Returns-decode_depricated :
    (v s : ℕ) (t : Bytes)
    → (v ≡ 2) ⊎ (v ≡ 3)
    → IsU64 s
    → All IsByte t
    → Returns (decode_depricated v s t)
unfolding decode_depricated
Returns-decode_depricated v s t hv hs b =
    if_either Returns (ltb 19 (length t) || ltb (length t) 18) (λ _. tt)
      (λ fits. record {
        version_known = hv;
        stream_fits = hs;
        ripe_valid = pad-IsRipe t (size_range (length t) 18 fits) b;
      })

Returns-by_version : (v s : ℕ) (t : Bytes) → IsU64 s → All IsByte t → Returns (by_version v s t)
unfolding by_version
Returns-by_version v s t hs b =
    if_either Returns (v == 2 || v == 3)
      (λ old. Returns-decode_depricated v s t (ground (arith, old)) hs b)
      (λ _. if_either Returns (v == 4) (λ _. Returns-decode_v4 s t hs b) (λ _. tt))

Returns-read_ripe : (v s : ℕ) (buf : Bytes) → IsU64 s → All IsByte buf → Returns (read_ripe v s buf)
unfolding read_ripe
Returns-read_ripe v s buf hs b =
    if_either Returns (ltb (length buf) 4) (λ _. tt)
      (λ _. Returns-by_version v s _ hs (All-take IsByte (length buf - 4) buf b))

Yields-read_front : Yields read_front (λ v. IsU64 (v.1))
unfolding read_front
Yields-read_front =
    Yields-bind _ _ Yields-var_int
      (λ v _. Yields-bind _ _ Yields-var_int (λ s h. Yields-pure (v, s) h))

Returns-then_ripe :
    (r : Bytes) (o : Outcome Bytes (ℕ × ℕ))
    → All IsByte r
    → Yielded (λ v. IsU64 (v.1)) r o
    → Returns (then_ripe o)
unfolding then_ripe
Returns-then_ripe r (err e rest) b h = tt
Returns-then_ripe r (ok v rest) b (h, (used, e)) =
    Returns-read_ripe v.0 v.1 rest h (All-suffix used rest (rw e at b))

module _ (sha512 : Bytes → Bytes) (base58_decode : Bytes → Bytes)
    (decode_bytes : (b : Bytes) → All IsByte (base58_decode b)) where
  Returns-decode_data : (d : Bytes) → All IsByte d → Returns (decode_data sha512 d)
  unfolding decode_data
  Returns-decode_data d b =
      if_either Returns (leb (length d) 12) (λ _. tt)
        (λ _.
          if_either Returns
            (equal (drop (length d - 4) d) (take 4 (double_sha512 sha512 (take (length d - 4) d))))
            (λ _. Returns-then_ripe d (read_front d) b (Yields-read_front.run d b)) (λ _. tt))

  -- `DecodeAddress` returns addresses of the versions 2, 3 and 4 alone, with a stream in range and a
  -- ripe of 20 bytes that starts with a null byte, if base58 decodes to bytes.
  pub decode_address-IsValid :
      (text : Bytes) (addr : Address)
      → decode_address sha512 base58_decode text ≡ returned addr
      → IsValid addr
  unfolding decode_address
  decode_address-IsValid text addr e =
      rw e at (Returns-decode_data (base58_decode (without_prefix text)) (decode_bytes _))
