-- ===== src/Base/Text/Lines.antt =====
-- Splitting into lines and joining are inverse.
use mathlib.Core.Path.{◌≡◌, refl, ap, ◌∙◌}
use mathlib.Core.Bool.{Bool, false}
use mathlib.Core.Option.{some}
use mathlib.Core.List.{List, [], ◌∷◌, ◌++◌}
use mathlib.Core.Logic.{inl, inr}
use Prim.Native.Nat.{ℕ}
use native.Mathlib.Omega.{arith}
use golang_collector.Base.Tests.{◌==◌, Bool-cases, Option-cases}
use golang_collector.Base.Lists.{any, All}
use golang_collector.Base.Text.{Text, newline, cut, split_lines, join_lines, add_front}

abbrev pub has_newline : Text → Bool
has_newline = any (λ c. c == newline)

abbrev pub IsLine : Text → Type 0
IsLine l = has_newline l ≡ false

All-add_front :
    (c : ℕ) (ls : List Text) → (c == newline) ≡ false → All IsLine ls → All IsLine (add_front c ls)
All-add_front c [] h k = (ground arith, tt)
All-add_front c (l ∷ ls) h k = (ground arith, k.1)

pub split_lines-IsLine : (s : Text) → All IsLine (split_lines s)
unfolding split_lines
split_lines-IsLine [] = (refl, tt)
split_lines-IsLine (c ∷ s) = elim (Bool-cases (c == newline)) [
  | inl e ↦ rw e (refl, split_lines-IsLine s)
  | inr e ↦ rw e (All-add_front c (split_lines s) e (split_lines-IsLine s))
]

split_lines-line : (l : Text) → IsLine l → split_lines l ≡ l ∷ []
unfolding split_lines
split_lines-line [] h = refl
split_lines-line (c ∷ l) h = ground (arith, split_lines-line l)

split_lines-append : (l s : Text) → IsLine l → split_lines (l ++ newline ∷ s) ≡ l ∷ split_lines s
unfolding split_lines
split_lines-append [] s h = refl
split_lines-append (c ∷ l) s h = ground (arith, split_lines-append l s)

pub split_lines-join_lines :
    (l : Text) (ls : List Text) → All IsLine (l ∷ ls) → split_lines (join_lines (l ∷ ls)) ≡ l ∷ ls
unfolding join_lines
split_lines-join_lines l [] h = split_lines-line l h.0
split_lines-join_lines l (m ∷ ls) h =
    split_lines-append l (join_lines (m ∷ ls)) h.0 ∙ ap (◌∷◌ l) (split_lines-join_lines m ls h.1)

-- There is always a first line.
pub split_lines_cons : (s : Text) → (l : Text) × (ls : List Text) × (split_lines s ≡ l ∷ ls)
unfolding split_lines
split_lines_cons [] = ([], [], refl)
split_lines_cons (c ∷ s) =
    let (l, ls, e) = split_lines_cons s in
    elim (Bool-cases (c == newline)) [
      | inl h ↦ ([], split_lines s, rw h)
      | inr h ↦ (c ∷ l, ls, rw (h, e))
    ]

-- What stands before the first `c` of a line is a line.
pub cut-IsLine :
    (c : ℕ) (l before after : Text) → IsLine l → cut c l ≡ some (before, after) → IsLine before
unfolding cut
cut-IsLine c [] before after h e = cc
cut-IsLine c (d ∷ l) before after h e = elim (Option-cases (cut c l)) [
  | inl k ↦ ground arith
  | inr ((b, a), k) ↦ ground (arith, cut-IsLine c l b a)
]

pub IsLine-append : (l m : Text) → IsLine l → IsLine m → IsLine (l ++ m)
IsLine-append [] m h k = k
IsLine-append (c ∷ l) m h k = ground (arith, IsLine-append l m)
