-- ===== src/Manager/Trim.antt =====
-- White space around a name or a type.
use miri_tool_v.Base.{
  ◌≡◌, refl, ap, ◌∙◌, true, false, Bytes, [], ◌∷◌, ◌++◌, All, length, ◌==◌, arith,
}
use miri_tool_v.Manager.{isspace, skip_spaces, cut_spaces, trim_whitespace}

abbrev pub Spaces : Bytes → Type 0
Spaces = All (λ c. isspace c ≡ true)

-- no white space at the start
abbrev pub StartsWithInk : Bytes → Type 0
StartsWithInk [] = Unit
StartsWithInk (c ∷ cs) = isspace c ≡ false

-- no white space at the end
abbrev pub EndsWithInk : Bytes → Type 0
EndsWithInk [] = Unit
EndsWithInk (c ∷ []) = isspace c ≡ false
EndsWithInk (c ∷ d ∷ cs) = EndsWithInk (d ∷ cs)

skip_spaces-append : (before s : Bytes) → Spaces before → skip_spaces (before ++ s) ≡ skip_spaces s
unfolding skip_spaces
skip_spaces-append [] s h = refl
skip_spaces-append (c ∷ cs) s h = rw h.0 (skip_spaces-append cs s h.1)

cut_spaces-Spaces : (after : Bytes) → Spaces after → cut_spaces after ≡ []
unfolding cut_spaces
cut_spaces-Spaces [] h = refl
cut_spaces-Spaces (c ∷ cs) h = rw (cut_spaces-Spaces cs h.1, h.0)

cut_spaces-append : (s after : Bytes) → EndsWithInk s → Spaces after → cut_spaces (s ++ after) ≡ s
unfolding cut_spaces
cut_spaces-append [] after ink h = cut_spaces-Spaces after h
cut_spaces-append (c ∷ []) after ink h = rw (cut_spaces-Spaces after h, ink)
cut_spaces-append (c ∷ d ∷ cs) after ink h =
    let some : (length (d ∷ cs) == 0) ≡ false = ground arith in
    rw (cut_spaces-append (d ∷ cs) after ink h, some)

-- A text with ink at both ends, or an empty one, is what is left when the white space before and
-- behind it is trimmed.
trim_whitespace-append :
    (before s after : Bytes)
    → Spaces before
    → StartsWithInk s
    → EndsWithInk s
    → Spaces after
    → trim_whitespace (before ++ (s ++ after)) ≡ s
unfolding trim_whitespace skip_spaces cut_spaces
trim_whitespace-append before [] after b i e a =
    ap cut_spaces (skip_spaces-append before after b) ∙ all_gone after a
  where
    all_gone : (xs : Bytes) → Spaces xs → cut_spaces (skip_spaces xs) ≡ []
    all_gone [] h = refl
    all_gone (c ∷ cs) h = rw h.0 (all_gone cs h.1)
trim_whitespace-append before (c ∷ cs) after b i e a =
    ap cut_spaces (skip_spaces-append before (c ∷ cs ++ after) b ∙ kept)
    ∙ cut_spaces-append (c ∷ cs) after e a
  where
    kept : skip_spaces (c ∷ cs ++ after) ≡ c ∷ cs ++ after
    kept = rw i
