-- ===== src/Server/Tests.antt =====
-- Runs of the server's operations at single inputs, over ads that are lists of assignments and a
-- backend that streams its two ads as they are stored.
use golang_collector.Base.{
  ◌≡◌, ◌≤◌, ◌+◌, refl, Bool, true, Option, none, some, List, [], ◌∷◌, All, if◌then◌else◌,
}
use golang_collector.Base.Text.{Text, codes, text_eq}
use golang_collector.Store.AdType.{startd_ad}
use golang_collector.Store.RawProject.{RawAd, raw_expr_attr_name}
use golang_collector.Server.TypeAttrs.{with, my_type_line, target_type_line}
use golang_collector.Server.Redact.{private_expr, redact_raw_exprs}
use golang_collector.Server.Query.{QueryAds}
use golang_collector.Server.Relay.{
  Error, ok, Frame, int32, raw_ad, Backend, relay_matches, relay_from, text_paths, plain_paths,
  redacted_or, send_stream, scan, send_one, send_exprs, relay_ad,
}
use golang_collector.Server.Relay.Bounds.{count_ads, Public}
use golang_collector.Server.Relay.Sources.{Redacts}
use golang_collector.Server.Relay.Response.{relay_matches-Public, count_ads-relay_matches-le}

abbrev Assignments : Type 0
Assignments = List (Text × Text)

find : Assignments → Text → Option Text
find [] a = none
find ((b, e) ∷ rest) a = if text_eq b a then some e else find rest a

abbrev ads : QueryAds
ads = record {
  Ad = Assignments;
  Expr = Text;
  empty = [];
  lookup = find;
  insert_expr = λ a e ad. (a, e) ∷ ad;
  string = λ e. e;
  evaluate_attr_string = find;
  evaluate_attr_int = λ ad a. none;
}

abbrev slot : RawAd
slot = record {
  exprs = codes "Name = \"s\"" ∷ codes "ClaimId = 7" ∷ [];
  my_type = codes "Machine";
  target_type = codes "Job";
}

abbrev backend : Backend Assignments Text
backend = record {
  query = λ t c l. ok [];
  query_raw = none;
  query_raw_stream = some (λ t c l. record { rows = slot ∷ slot ∷ []; outcome = λ k. none });
  query_raw_redacted = none;
  query_raw_project = none;
  query_raw_project_stream = none;
  query_raw_project_redacted = none;
  query_raw_wire_stream = none;
}

is_private : Text → Bool
is_private a = text_eq a (codes "ClaimId")

abbrev render : Text → Option RawAd
render row = none

abbrev accepts : List (Frame Assignments) → Frame Assignments → Option Error
accepts out f = none

redacts : Redacts ads is_private render accepts 1 true backend
redacts = record {
  raw = λ f t c rs e. absurd cc;
  projected = λ f t c p rs e. absurd cc;
  wire = λ f t c p e. absurd cc;
}

-- One ad goes out, without its claim id and with its types.
relay_matches_test :
    relay_matches ads is_private render accepts 1 true backend startd_ad [] [] [] ≡ (
      none,
      int32 1
          ∷ raw_ad (
              codes "MyType = \"Machine\""
              ∷ codes "TargetType = \"Job\""
              ∷ codes "Name = \"s\""
              ∷ [])
          ∷ [],
    )
unfolding relay_matches relay_from text_paths redacted_or plain_paths send_stream scan send_one
    send_exprs relay_ad with my_type_line target_type_line redact_raw_exprs private_expr is_private
    raw_expr_attr_name
relay_matches_test = refl

relay_matches-Public_example :
    All
      (Public is_private)
      (relay_matches ads is_private render accepts 1 true backend startd_ad [] [] []).1
unfolding is_private
relay_matches-Public_example =
    relay_matches-Public ads is_private render accepts 1 true backend startd_ad [] [] [] refl refl
      redacts refl tt

count_ads-relay_matches-le_example :
    count_ads (relay_matches ads is_private render accepts 1 true backend startd_ad [] [] []).1
    ≤ count_ads {Ad = Assignments} [] + 1
unfolding is_private
count_ads-relay_matches-le_example =
    count_ads-relay_matches-le ads is_private render accepts 1 true backend startd_ad [] [] [] refl
      refl redacts (λ r. tt) refl

abbrev query_ad : Assignments
query_ad = (codes "Requirements", codes "TotalCpus > 4") ∷ []
