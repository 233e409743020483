-- ===== src/Wire/Utf8.antt =====
-- `utf8.ValidString` of Go's `unicode/utf8`: the well-formed byte sequences of Unicode's table 3-7.
use bmutil.Common.{ℕ, Bool, true, ◌&&◌, [], ◌∷◌, Bytes, leb, if◌then◌else◌, ◌||◌}

abbrev within : ℕ → ℕ → ℕ → Bool
within lo hi b = leb lo b && leb b hi

abbrev continues : ℕ → Bool
continues b = within 0x80 0xbf b

-- the bounds of the second byte behind the first byte of a sequence of three
second_of_three : ℕ → ℕ → Bool
second_of_three a b =
    if within 0xe0 0xe0 a
    then within 0xa0 0xbf b
    else if within 0xed 0xed a
    then within 0x80 0x9f b
    else within 0xe1 0xef a && continues b

-- the bounds of the second byte behind the first byte of a sequence of four
second_of_four : ℕ → ℕ → Bool
second_of_four a b =
    if within 0xf0 0xf0 a
    then within 0x90 0xbf b
    else if within 0xf4 0xf4 a
    then within 0x80 0x8f b
    else within 0xf1 0xf3 a && continues b

unfoldable pub valid_utf8 : Bytes → Bool
unfolding second_of_three second_of_four
valid_utf8 [] = true
valid_utf8 (a ∷ []) = leb a 0x7f
valid_utf8 (a ∷ b ∷ []) =
    let one = valid_utf8 (b ∷ []) in (leb a 0x7f && one) || (within 0xc2 0xdf a && continues b)
valid_utf8 (a ∷ b ∷ c ∷ []) =
    let one = valid_utf8 (b ∷ c ∷ []) in
    let two = valid_utf8 (c ∷ []) in
    if leb a 0x7f
    then one
    else if within 0xc2 0xdf a
    then continues b && two
    else second_of_three a b && continues c
valid_utf8 (a ∷ b ∷ c ∷ d ∷ r) =
    let one = valid_utf8 (b ∷ c ∷ d ∷ r) in
    let two = valid_utf8 (c ∷ d ∷ r) in
    let three = valid_utf8 (d ∷ r) in
    let four = valid_utf8 r in
    if leb a 0x7f
    then one
    else if within 0xc2 0xdf a
    then continues b && two
    else if within 0xe0 0xef a
    then second_of_three a b && continues c && three
    else second_of_four a b && continues c && continues d && four
