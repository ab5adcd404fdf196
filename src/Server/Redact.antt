-- ===== src/Server/Redact.antt =====
-- server/server.go: the redaction of ads in wire form. The test for a private attribute
-- (`message.ClassAdAttributeIsPrivateAny`) is a parameter.
use golang_collector.Base.{
  ◌≡◌, Bool, true, not, List, All, All-keep, keep, drop_from_first, drop_from_first-keep,
}
use golang_collector.Base.Text.{Text}
use golang_collector.Store.RawProject.{raw_expr_attr_name}

module _ (is_private : Text → Bool) where
  unfoldable pub private_expr : Text → Bool
  private_expr e = is_private (raw_expr_attr_name e)

  -- `first` is the index of the first private expression.
  unfoldable pub redact_raw_exprs : List Text → List Text
  redact_raw_exprs exprs = drop_from_first private_expr exprs

  -- What is left of an ad are the expressions whose attribute is not private, in order.
  pub redact_raw_exprs-keep :
      (exprs : List Text) → redact_raw_exprs exprs ≡ keep (λ e. not (private_expr e)) exprs
  unfolding redact_raw_exprs
  redact_raw_exprs-keep exprs = drop_from_first-keep private_expr exprs

  pub redact_raw_exprs-All :
      (exprs : List Text) → All (λ e. not (private_expr e) ≡ true) (redact_raw_exprs exprs)
  redact_raw_exprs-All exprs =
      rw (redact_raw_exprs-keep exprs) (All-keep (λ e. not (private_expr e)) exprs)
