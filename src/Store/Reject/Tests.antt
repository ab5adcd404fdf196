-- ===== src/Store/Reject/Tests.antt =====
-- Runs of store/reject.go at single inputs.
use golang_collector.Base.{◌≡◌, refl, Bool}
use golang_collector.Base.Text.{
  Text, codes, text_eq, split_lines, join_lines, lines, cut, trim_space,
}
use golang_collector.Store.Reject.{ad_name, sanitize_ad_text, ad_excerpt}
use golang_collector.Store.Reject.Secrecy.{nil, cons, same, hidden, ad_excerpt-SamePublic}

-- A library in which ClaimId alone is private.
abbrev claims : Text → Bool
claims = text_eq (codes "ClaimId")

abbrev secret_ad : Text
secret_ad = codes "Name = \"a\"\nClaimId = \"s3\"\n"

abbrev other_ad : Text
other_ad = codes "Name = \"a\"\nClaimId = 7\n"

sanitize_ad_text_run :
    sanitize_ad_text claims secret_ad ≡ codes "Name = \"a\"\nClaimId = \"<redacted>\"\n"
unfolding sanitize_ad_text cut trim_space split_lines join_lines
sanitize_ad_text_run = refl

ad_name_run : ad_name secret_ad ≡ codes "a"
unfolding ad_name trim_space lines
ad_name_run = refl

ad_excerpt-SamePublic_example : ad_excerpt claims secret_ad ≡ ad_excerpt claims other_ad
unfolding split_lines cut trim_space
ad_excerpt-SamePublic_example = ad_excerpt-SamePublic claims secret_ad other_ad (
    cons (same _)
      (cons (hidden (codes "ClaimId ") ((_, refl), refl) ((_, refl), refl)) (cons (same _) nil)))
