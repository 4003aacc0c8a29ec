-- ===== src/Routing.antt =====
-- nhpc_qa/pipeline/parse/routing.py: each page of a PDF goes to the parser, to OCR or to the vision
-- model.
pub mod Pages
use nhpc_parliament_rag_syst.Prelude.{
  ℕ, zero, suc, ◌+◌, Bool, true, false, not, ◌&&◌, ◌||◌, Option, none, some, List, [], ◌∷◌,
  if◌then◌else◌, Text, codes, strip, length, count, ltb, leb,
}

pub data PageType : Type 0 where
  digital scanned image_based : PageType

pub data Route : Type 0 where
  parse_document ocr_image parse_visual : Route

-- ROUTE_FOR_TYPE
abbrev pub route_for_type : PageType → Route
route_for_type digital = parse_document
route_for_type scanned = ocr_image
route_for_type image_based = parse_visual

-- The share of a page that images cover, and the thresholds for it, in thousandths; the floats of the
-- code are compared in the same way.
pub record RoutingConfig : Type 0 where
  pub scanned_char_threshold_per_page : ℕ
  pub visual_min_text_chars : ℕ
  pub image_coverage_threshold : ℕ

pub record Page : Type 0 where
  pub page_text : Text
  pub image_coverage : ℕ
  pub n_images : ℕ

pub record PageRoute : Type 0 where
  pub page : ℕ
  pub page_type : PageType
  pub route : Route
  pub text_chars : ℕ
  pub coverage : ℕ
  pub images : ℕ

abbrev pub page_type_of : RoutingConfig → ℕ → ℕ → PageType
page_type_of cfg nchars cover =
    if leb cfg.scanned_char_threshold_per_page nchars
    then digital
    else if leb cfg.image_coverage_threshold cover && ltb nchars cfg.visual_min_text_chars
    then image_based
    else scanned

unfoldable pub classify_page : RoutingConfig → ℕ → Page → PageRoute
classify_page cfg number p =
    let nchars = length (strip p.page_text) in
    let pt = page_type_of cfg nchars p.image_coverage in
    record {
      page = number;
      page_type = pt;
      route = route_for_type pt;
      text_chars = nchars;
      coverage = p.image_coverage;
      images = p.n_images;
    }

unfoldable pub classify_from : RoutingConfig → ℕ → List Page → List PageRoute
unfolding classify_page
classify_from cfg number [] = []
classify_from cfg number (p ∷ ps) = classify_page cfg number p ∷ classify_from cfg (suc number) ps

abbrev pub default_digital : List PageRoute
default_digital =
    record {
      page = 1;
      page_type = digital;
      route = parse_document;
      text_chars = 0;
      coverage = 0;
      images = 0;
    }
    ∷ []

-- The pages as the PDF library reads them; `none` where it is missing or raises.
unfoldable pub classify_pages : RoutingConfig → Option (List Page) → List PageRoute
unfolding classify_from
classify_pages cfg none = default_digital
classify_pages cfg (some []) = default_digital
classify_pages cfg (some (p ∷ ps)) = classify_from cfg 1 (p ∷ ps)

pub record Summary : Type 0 where
  pub n_pages : ℕ
  pub n_digital : ℕ
  pub n_scanned : ℕ
  pub n_image_based : ℕ
  pub mixed : Bool

abbrev pub is_digital : PageRoute → Bool
is_digital r = elim r.page_type [ digital ↦ true | scanned ↦ false | image_based ↦ false ]

abbrev pub is_scanned : PageRoute → Bool
is_scanned r = elim r.page_type [ digital ↦ false | scanned ↦ true | image_based ↦ false ]

abbrev pub is_image_based : PageRoute → Bool
is_image_based r = elim r.page_type [ digital ↦ false | scanned ↦ false | image_based ↦ true ]

abbrev pub one_if : ℕ → ℕ
one_if zero = 0
one_if (suc n) = 1

unfoldable pub summarize_routing : List PageRoute → Summary
summarize_routing routes =
    let d = count is_digital routes in
    let s = count is_scanned routes in
    let i = count is_image_based routes in
    record {
      n_pages = length routes;
      n_digital = d;
      n_scanned = s;
      n_image_based = i;
      mixed = ltb 1 (one_if d + one_if s + one_if i);
    }
