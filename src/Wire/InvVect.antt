-- ===== src/Wire/InvVect.antt =====
-- wire/invvect.go: an inventory vector is the hash of an object, a `hash.Sha` of 32 bytes.
use bmutil.Common.{ℕ, ◌≡◌, refl, [], ◌∷◌, Bytes, IsByte, All, length, append-nil}
use bmutil.Stream.{◌>>=◌, pure, Reader, Writer}
use bmutil.Stream.Parses.{Parses, Parses-map}
use bmutil.Stream.Emits.{Emits}
use bmutil.Stream.Yields.{Yields, Yields-bind, Yields-pure}
use bmutil.Wire.Element.{sha, read_elements, write_elements}
use bmutil.Wire.Element.RoundTrip.{Parses-elements, Emits-elements, Yields-elements}

abbrev pub max_inv_per_msg : ℕ
max_inv_per_msg = 50000

abbrev pub max_inv_vect_payload : ℕ
max_inv_vect_payload = 32

abbrev pub InvVect : Type 0
InvVect = Bytes

-- `[32]byte`
abbrev pub IsSha : InvVect → Type 0
IsSha iv = (length iv ≡ 32) × All IsByte iv

pub read_inv_vect : Reader InvVect
read_inv_vect = do es ← read_elements (sha ∷ []); pure es.0

pub write_inv_vect : InvVect → Writer
write_inv_vect iv = write_elements (sha ∷ []) (iv, tt)

pub Emits-write_inv_vect : (iv : InvVect) → Emits (write_inv_vect iv) iv
unfolding write_inv_vect
Emits-write_inv_vect iv = rw (append-nil iv) at (Emits-elements (sha ∷ []) (iv, tt))

pub Parses-read_inv_vect : (iv : InvVect) → IsSha iv → Parses read_inv_vect iv iv
unfolding read_inv_vect
Parses-read_inv_vect iv h =
    Parses-map _ (rw (append-nil iv) at (Parses-elements (sha ∷ []) (iv, tt) (h, tt))) (λ r. refl)

pub Yields-read_inv_vect : Yields read_inv_vect IsSha
unfolding read_inv_vect
Yields-read_inv_vect = Yields-bind _ _ (Yields-elements (sha ∷ [])) (λ es e. Yields-pure _ e.0)
