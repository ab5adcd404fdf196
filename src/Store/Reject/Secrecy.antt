-- ===== src/Store/Reject/Secrecy.antt =====
-- The excerpt shows nothing of a private value.
use golang_collector.Base.{
  ℕ, ◌≡◌, refl, Bool, true, inl, inr, some, List, [], ◌∷◌, ◌++◌, ◌+◌, ◌≤◌, map, All, length, take,
  length-append, length-take-le, Option-cases, arith,
}
use golang_collector.Base.Text.{Text, cut, split_lines, trim_space}
use golang_collector.Base.Text.Lines.{
  IsLine, IsLine-append, cut-IsLine, split_lines-IsLine, split_lines-join_lines, split_lines_cons,
}
use golang_collector.Store.Reject.{
  sanitize_ad_line, sanitize_ad_text, ad_excerpt, cap, truncated, max_excerpt, redacted,
}

length-cap-le : (max : ℕ) (mark text : Text) → length (cap max mark text) ≤ max + length mark
unfolding cap
length-cap-le max mark text =
    ground (arith, length-take-le max text, length-append (take max text) mark)

-- Whether a line assigns a private attribute; and the text before its `=`.
abbrev pub PrivateName : (Text → Bool) → Text → Text → Type 0
PrivateName is_private line before =
    ((after : Text) × (cut b'=' line ≡ some (before, after)))
    × (is_private (trim_space before) ≡ true)

-- Two lines that differ at most in the value of a private attribute.
pub data SamePublic (is_private : Text → Bool) : Text → Text → Type 0 where
  same : (line : Text) → SamePublic is_private line line
  hidden :
      {line other : Text} (before : Text)
      → PrivateName is_private line before
      → PrivateName is_private other before
      → SamePublic is_private line other

pub data SamePublicLines (is_private : Text → Bool) : List Text → List Text → Type 0 where
  nil : SamePublicLines is_private [] []
  cons :
      {l m : Text} {ls ms : List Text}
      → SamePublic is_private l m
      → SamePublicLines is_private ls ms
      → SamePublicLines is_private (l ∷ ls) (m ∷ ms)

module _ (is_private : Text → Bool) where
  sanitize_ad_line-private :
      (line before : Text)
      → PrivateName is_private line before
      → sanitize_ad_line is_private line ≡ before ++ b'=' ∷ redacted
  unfolding sanitize_ad_line
  sanitize_ad_line-private line before ((after, e), p) = ground arith

  sanitize_ad_line-SamePublic :
      {l m : Text}
      → SamePublic is_private l m
      → sanitize_ad_line is_private l ≡ sanitize_ad_line is_private m
  sanitize_ad_line-SamePublic (same line) = refl
  sanitize_ad_line-SamePublic (hidden {line} {other} before p q) =
      cc (sanitize_ad_line-private line before p, sanitize_ad_line-private other before q)

  map-SamePublicLines :
      {ls ms : List Text}
      → SamePublicLines is_private ls ms
      → map (sanitize_ad_line is_private) ls ≡ map (sanitize_ad_line is_private) ms
  map-SamePublicLines nil = refl
  map-SamePublicLines (cons s rest) = cc (sanitize_ad_line-SamePublic s, map-SamePublicLines rest)

  -- Two ads whose lines differ at most in the values of private attributes have the same excerpt:
  -- what is logged says nothing of a private value.
  pub ad_excerpt-SamePublic :
      (text other : Text)
      → SamePublicLines is_private (split_lines text) (split_lines other)
      → ad_excerpt is_private text ≡ ad_excerpt is_private other
  unfolding ad_excerpt
  ad_excerpt-SamePublic text other s = rw (map-SamePublicLines s)

  -- An excerpt has at most 8192 bytes and the 15 of the mark that it was cut.
  pub length-ad_excerpt-le : (text : Text) → length (ad_excerpt is_private text) ≤ max_excerpt + 15
  unfolding ad_excerpt
  length-ad_excerpt-le text = length-cap-le max_excerpt truncated (sanitize_ad_text is_private text)

  sanitize_ad_line-IsLine : (line : Text) → IsLine line → IsLine (sanitize_ad_line is_private line)
  unfolding sanitize_ad_line
  sanitize_ad_line-IsLine line h = elim (Option-cases (cut b'=' line)) [
    | inl e ↦ rw (e, sanitize_ad_line) h
    | inr ((before, after), e) ↦
        ground (arith, IsLine-append before (b'=' ∷ redacted), cut-IsLine b'=' line before after h)
  ]

  All-sanitize_ad_line :
      (ls : List Text) → All IsLine ls → All IsLine (map (sanitize_ad_line is_private) ls)
  All-sanitize_ad_line [] h = tt
  All-sanitize_ad_line (l ∷ ls) h = (sanitize_ad_line-IsLine l h.0, All-sanitize_ad_line ls h.1)

  -- The lines of the sanitized text are those of the text, each sanitized on its own: the redaction
  -- neither adds, drops nor joins a line.
  pub split_lines-sanitize_ad_text :
      (text : Text)
      → split_lines (sanitize_ad_text is_private text)
        ≡ map (sanitize_ad_line is_private) (split_lines text)
  unfolding sanitize_ad_text
  split_lines-sanitize_ad_text text =
      let (l, ls, e) = split_lines_cons text in
      let plain = All-sanitize_ad_line (split_lines text) (split_lines-IsLine text) in
      rw e (
        split_lines-join_lines (sanitize_ad_line is_private l)
          (map (sanitize_ad_line is_private) ls) (rw e at plain))
