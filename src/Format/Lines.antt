-- ===== src/Format/Lines.antt =====
-- The regular expression of the second encoding: which texts it takes apart, and into what.
use bmutil.Common.{
  ℕ, ◌≡◌, refl, ap, [], ◌∷◌, ◌++◌, Bytes, All, Bool, true, false, ◌==◌, ==_iff, if◌then◌else◌,
  Option, none, some, codes, ◌∙◌,
}
use bmutil.Format.{
  strip_prefix, split_line, with_first, find_submatches, match_body, match_line, match_subject,
}

-- A text without a newline
abbrev pub IsLine : Bytes → Type 0
IsLine s = All (λ x. (x == 10) ≡ false) s

pub strip_prefix-append : (p s : Bytes) → strip_prefix p (p ++ s) ≡ some s
unfolding strip_prefix
strip_prefix-append [] s = refl
strip_prefix-append (x ∷ p) s = rw ((==_iff x x).1 refl) (strip_prefix-append p s)

pub split_line-append : (s r : Bytes) → IsLine s → split_line (s ++ (10 ∷ r)) ≡ some (s, r)
unfolding split_line
split_line-append [] r h = refl
split_line-append (x ∷ s) r h = rw (h.0, split_line-append s r h.1) refl

-- What a literal leaves stands behind it.
abbrev pub Stripped : Bytes → Bytes → Option Bytes → Type 0
Stripped p msg none = Unit
Stripped p msg (some rest) = msg ≡ p ++ rest

strip_step :
    (c : Bool) (p x : ℕ) (ps xs : Bytes) (o : Option Bytes)
    → (p == x) ≡ c
    → Stripped ps xs o
    → Stripped (p ∷ ps) (x ∷ xs) (if c then o else none)
strip_step false p x ps xs o e h = tt
strip_step true p x ps xs none e h = tt
strip_step true p x ps xs (some rest) e h = rw ((==_iff p x).0 e, h) refl

pub strip_prefix-Stripped : (p msg : Bytes) → Stripped p msg (strip_prefix p msg)
unfolding strip_prefix
strip_prefix-Stripped [] msg = refl
strip_prefix-Stripped (p ∷ ps) [] = tt
strip_prefix-Stripped (p ∷ ps) (x ∷ xs) =
    strip_step (p == x) p x ps xs (strip_prefix ps xs) refl (strip_prefix-Stripped ps xs)

-- A line that was split off has no newline.
abbrev pub Split : Bytes → Option (Bytes × Bytes) → Type 0
Split msg none = Unit
Split msg (some p) = IsLine (p.0) × (msg ≡ p.0 ++ (10 ∷ p.1))

line_step :
    (c : Bool) (x : ℕ) (xs : Bytes) (o : Option (Bytes × Bytes))
    → (x == 10) ≡ c
    → Split xs o
    → Split (x ∷ xs) (if c then some ([], xs) else with_first x o)
line_step true x xs o e h = (tt, rw ((==_iff x 10).0 e) refl)
line_step false x xs none e h = tt
line_step false x xs (some p) e h = ((e, h.0), ap (◌∷◌ x) (h.1))

pub split_line-Split : (msg : Bytes) → Split msg (split_line msg)
unfolding split_line
split_line-Split [] = tt
split_line-Split (x ∷ xs) = line_step (x == 10) x xs (split_line xs) refl (split_line-Split xs)

abbrev pub matched : Bytes → Bytes → Bytes
matched s b = codes "Subject:" ++ (s ++ (10 ∷ (codes "Body:" ++ b)))

-- The expression matches just the texts of a subject of one line and a body.
pub find_submatches-matched : (s b : Bytes) → IsLine s → find_submatches (matched s b) ≡ some (s, b)
unfolding find_submatches match_subject match_line match_body
find_submatches-matched s b h =
    ap match_subject (strip_prefix-append (codes "Subject:") (s ++ (10 ∷ (codes "Body:" ++ b))))
    ∙ (ap match_line (split_line-append s (codes "Body:" ++ b) h)
        ∙ ap (match_body s) (strip_prefix-append (codes "Body:") b))

abbrev pub Found : Bytes → Option (Bytes × Bytes) → Type 0
Found msg none = Unit
Found msg (some p) = IsLine (p.0) × (msg ≡ matched (p.0) (p.1))

Found-body :
    (msg rest : Bytes) (p : Bytes × Bytes) (o : Option Bytes)
    → msg ≡ codes "Subject:" ++ rest
    → Split rest (some p)
    → Stripped (codes "Body:") (p.1) o
    → Found msg (match_body (p.0) o)
unfolding match_body
Found-body msg rest p none e h k = tt
Found-body msg rest p (some b) e h k = (h.0, rw (e, h.1, k) refl)

Found-line :
    (msg rest : Bytes) (o : Option (Bytes × Bytes))
    → msg ≡ codes "Subject:" ++ rest
    → Split rest o
    → Found msg (match_line o)
unfolding match_line
Found-line msg rest none e h = tt
Found-line msg rest (some p) e h =
    Found-body msg rest p (strip_prefix (codes "Body:") (p.1)) e h
      (strip_prefix-Stripped (codes "Body:") (p.1))

Found-subject :
    (msg : Bytes) (o : Option Bytes)
    → Stripped (codes "Subject:") msg o
    → Found msg (match_subject o)
unfolding match_subject
Found-subject msg none e = tt
Found-subject msg (some rest) e = Found-line msg rest (split_line rest) e (split_line-Split rest)

pub find_submatches-Found : (msg : Bytes) → Found msg (find_submatches msg)
unfolding find_submatches
find_submatches-Found msg =
    Found-subject msg (strip_prefix (codes "Subject:") msg)
      (strip_prefix-Stripped (codes "Subject:") msg)
