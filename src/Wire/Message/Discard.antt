-- ===== src/Wire/Message/Discard.antt =====
-- `discardInput` skips its number of bytes, or all that is left.
use bmutil.Common.{
  ℕ, zero, suc, ◌+◌, ◌*◌, ◌/◌, ◌%◌, ◌≤◌, ◌≡◌, refl, ap, ◌∙◌, Bytes, length, drop, drop-drop,
  drop_all, leb, leb→gt, ltb, Bool-cases, inl, inr, arith, if_either, ltb→ge, if◌then◌else◌,
}
use bmutil.Stream.{state, read_full}
use bmutil.Wire.Message.{discard_chunks, discard_input}

read_full-drop : (n : ℕ) (r : Bytes) → state (read_full n r) ≡ drop n r
unfolding read_full
read_full-drop n r = elim (Bool-cases (leb n (length r))) [
  | inl enough ↦ rw enough
  | inr short ↦
      let s : length r ≤ n = omega (arith, leb→gt n (length r) short) in rw (short, drop_all n r s)
]

discard_chunks-drop : (k : ℕ) (r : Bytes) → discard_chunks k r ≡ drop (k * 10240) r
unfolding discard_chunks
discard_chunks-drop zero r = refl
discard_chunks-drop (suc k) r =
    let e : 10240 + k * 10240 ≡ suc k * 10240 = omega arith in
    discard_chunks-drop k (state (read_full 10240 r))
    ∙ rw (read_full-drop 10240 r) (drop-drop 10240 (k * 10240) r ∙ ap (λ m. drop m r) e)

-- The chunks and the remainder add up: `discardInput` skips exactly `n` bytes of its input, and all
-- of a shorter one.
pub discard_input-drop : (n : ℕ) (r : Bytes) → discard_input n r ≡ drop n r
unfolding discard_input
discard_input-drop n r =
    if_either (λ x. x ≡ drop n r) (ltb 0 (n % 10240))
      (λ p.
        read_full-drop (n % 10240) _
        ∙ ap (drop (n % 10240)) chunks
        ∙ drop-drop (n / 10240 * 10240) (n % 10240) r
        ∙ ap (λ m. drop m r) add_up)
      (λ p. chunks ∙ ap (λ m. drop m r) (no_rest (ltb→ge 0 (n % 10240) p)))
  where
    chunks : (if ltb 0 n then discard_chunks (n / 10240) r else r) ≡ drop (n / 10240 * 10240) r
    chunks =
        if_either (λ x. x ≡ drop (n / 10240 * 10240) r) (ltb 0 n)
          (λ p. discard_chunks-drop (n / 10240) r)
          (λ p. ap (λ m. drop m r) (nothing (ltb→ge 0 n p)))
      where
        nothing : n ≤ 0 → 0 ≡ n / 10240 * 10240
        nothing h = omega arith

    add_up : n / 10240 * 10240 + n % 10240 ≡ n
    add_up = omega arith

    no_rest : n % 10240 ≤ 0 → n / 10240 * 10240 ≡ n
    no_rest h = omega arith
