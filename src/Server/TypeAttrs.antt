-- ===== src/Server/TypeAttrs.antt =====
-- server/server.go: `rawTypeAttrs`, the attribute lines of an ad's types, kept from one ad of a
-- response to the next. The scratch slice holds nothing between two calls, so it is left out.
use golang_collector.Base.{
  ◌≡◌, refl, ◌&&◌, Option, none, some, List, [], ◌∷◌, ◌++◌, map, if◌then◌else◌, arith,
}
use golang_collector.Base.Text.{Text, codes, text_eq, text_eq_iff, is_empty}
use golang_collector.Store.RawProject.{RawAd}

pub record TypeAttrs : Type 0 where
  pub mt_val : Text
  pub tt_val : Text
  pub mt : Option Text
  pub tt_line : Option Text

-- The zero value that a response starts with.
abbrev pub no_type_attrs : TypeAttrs
no_type_attrs = record { mt_val = []; tt_val = []; mt = none; tt_line = none }

unfoldable pub my_type_line : Text → Text
my_type_line t = codes "MyType = \"" ++ t ++ b'"' ∷ []

unfoldable pub target_type_line : Text → Text
target_type_line t = codes "TargetType = \"" ++ t ++ b'"' ∷ []

-- A cached line, built again where the value has changed or no line was built yet.
unfoldable pub cached_line : (Text → Text) → Text → Text → Option Text → Text
cached_line line value cached none = line value
cached_line line value cached (some l) = if text_eq value cached then l else line value

unfoldable pub with : TypeAttrs → List Text → Text → Text → List Text × TypeAttrs
unfolding cached_line
with r exprs my_type target_type =
    if is_empty my_type && is_empty target_type
    then (exprs, r)
    else let mt = cached_line my_type_line my_type r.mt_val r.mt in
      let tt_line = cached_line target_type_line target_type r.tt_val r.tt_line in
      let r' = if is_empty my_type then r else record r { mt_val = my_type; mt = some mt } in
      let r'' =
        if is_empty target_type
        then r'
        else record r' { tt_val = target_type; tt_line = some tt_line } in
      let front = if is_empty my_type then [] else mt ∷ [] in
      let lines = if is_empty target_type then front else front ++ tt_line ∷ [] in
      (lines ++ exprs, r'')

unfoldable pub with_raw_type_attrs : List Text → Text → Text → List Text
with_raw_type_attrs exprs my_type target_type =
    if is_empty my_type && is_empty target_type
    then exprs
    else let front = if is_empty my_type then [] else my_type_line my_type ∷ [] in
      let lines =
        if is_empty target_type then front else front ++ target_type_line target_type ∷ [] in
      lines ++ exprs

-- The lines that `with` puts out for one ad after another, starting with a cache.
unfoldable pub with_all : TypeAttrs → List RawAd → List (List Text)
with_all r [] = []
with_all r (ra ∷ ads) =
    let (exprs, r') = with r ra.exprs ra.my_type ra.target_type in exprs ∷ with_all r' ads

abbrev pub LineOf : (Text → Text) → Text → Option Text → Type 0
LineOf line value none = Unit
LineOf line value (some l) = l ≡ line value

-- A cached line is that of the value it is cached for.
pub record IsCached (r : TypeAttrs) : Type 0 where
  pub my_type : LineOf my_type_line r.mt_val r.mt
  pub target_type : LineOf target_type_line r.tt_val r.tt_line

cached_line-line :
    (line : Text → Text) (value cached : Text) (l : Option Text)
    → LineOf line cached l
    → cached_line line value cached l ≡ line value
unfolding cached_line
cached_line-line line value cached none h = refl
cached_line-line line value cached (some l) h = ground (arith, text_eq_iff value cached)

pub with-with_raw_type_attrs :
    (r : TypeAttrs) (exprs : List Text) (my_type target_type : Text)
    → IsCached r
    → (with r exprs my_type target_type).0 ≡ with_raw_type_attrs exprs my_type target_type
unfolding with with_raw_type_attrs
with-with_raw_type_attrs r exprs my_type target_type h =
    rw
      (
        cached_line-line my_type_line my_type r.mt_val r.mt h.my_type,
        cached_line-line target_type_line target_type r.tt_val r.tt_line h.target_type,
      )
      (ground arith)

pub with-IsCached :
    (r : TypeAttrs) (exprs : List Text) (my_type target_type : Text)
    → IsCached r
    → IsCached (with r exprs my_type target_type).1
unfolding with
with-IsCached r exprs [] [] h = h
with-IsCached r exprs [] (c ∷ t) h = record {
  my_type = h.my_type;
  target_type = cached_line-line target_type_line (c ∷ t) r.tt_val r.tt_line h.target_type;
}
with-IsCached r exprs (c ∷ m) [] h = record {
  my_type = cached_line-line my_type_line (c ∷ m) r.mt_val r.mt h.my_type;
  target_type = h.target_type;
}
with-IsCached r exprs (c ∷ m) (d ∷ t) h = record {
  my_type = cached_line-line my_type_line (c ∷ m) r.mt_val r.mt h.my_type;
  target_type = cached_line-line target_type_line (d ∷ t) r.tt_val r.tt_line h.target_type;
}

-- The cache makes no difference: whatever the types of the ads of a response are, each ad goes out
-- with the type attributes that it would have without a cache.
pub with_all-with_raw_type_attrs :
    (r : TypeAttrs) (ads : List RawAd)
    → IsCached r
    → with_all r ads
      ≡ map (λ (ra : RawAd). with_raw_type_attrs ra.exprs ra.my_type ra.target_type) ads
unfolding with_all
with_all-with_raw_type_attrs r [] h = refl
with_all-with_raw_type_attrs r (ra ∷ ads) h = ground (
  arith,
  with-with_raw_type_attrs r ra.exprs ra.my_type ra.target_type h,
  with_all-with_raw_type_attrs (with r ra.exprs ra.my_type ra.target_type).1 ads
      (with-IsCached r ra.exprs ra.my_type ra.target_type h),
)
