-- ===== src/Matchmaker/Floats.antt =====
-- float64 and the values of the classad library, as far as the matchmaker uses them. No law of the
-- operations is assumed here; `IsOrdered` is what a comparison has where no operand is NaN.
use golang_collector.Base.{◌≡◌, ◌⊎◌, Bool, true, false, Option, none, some}
use golang_collector.Base.Int.{ℤ}
use golang_collector.Base.Text.{Text}

pub record Floats : Type 1 where
  pub R : Type 0
  pub lt : R → R → Bool
  pub le : R → R → Bool
  pub eq : R → R → Bool
  pub add : R → R → R
  pub zero : R
  pub one : R
  pub of_int : ℤ → R
  pub parse_float : Text → Option R
  pub rank_unset : R
  pub preempt_rank_def : R

-- The comparisons of values none of which is NaN.
pub record IsOrdered (f : Floats) : Type 0 where
  pub eq_sound : (a b : f.R) → f.eq a b ≡ true → a ≡ b
  pub eq_refl : (a : f.R) → f.eq a a ≡ true
  pub lt_irrefl : (a : f.R) → f.lt a a ≡ false
  pub lt_trans : (a b c : f.R) → f.lt a b ≡ true → f.lt b c ≡ true → f.lt a c ≡ true
  pub lt_total : (a b : f.R) → f.eq a b ≡ false → (f.lt a b ≡ true) ⊎ (f.lt b a ≡ true)

-- classad.Value, as far as it is asked.
pub data Value (R : Type 0) : Type 0 where
  bool_value : Bool → Value R
  real_value : R → Value R
  int_value : ℤ → Value R
  string_value : Text → Value R
  other_value : Value R

module _ (f : Floats) where
  -- `numberOf`
  unfoldable pub number_of : Value f.R → Option f.R
  number_of (real_value r) = some r
  number_of (int_value i) = some (f.of_int i)
  number_of _ = none

  -- The classad library: `Ad` is *classad.ClassAd, `Expr` a parsed expression. In the functions of
  -- two ads the first is the job (left), the second the slot (right).
  pub record Classads : Type 1 where
    pub Ad : Type 0
    pub Expr : Type 0
    pub eval_string : Ad → Text → Option Text
    pub eval_attr : Ad → Text → Value f.R
    pub has_attr : Ad → Text → Bool
    pub symmetry : Ad → Ad → Bool
    pub eval_left : Ad → Ad → Text → Value f.R
    pub eval_right : Ad → Ad → Expr → Value f.R
    pub rank_left : Ad → Ad → Option f.R
