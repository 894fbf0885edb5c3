-- ===== src/Provenance.antt =====
-- backend/planning/provenance.py: which sources support a claim at a date.
pub mod Laws
use bardi.Prelude.{
  String, Bool, true, false, not, ◌&&◌, ◌||◌, Option, none, some, List, [], ◌∷◌, all, is_empty,
  str_eq, if◌then◌else◌,
}
use bardi.Dict
use bardi.Dict.{Dict}
use bardi.Calendar.{Date}
use bardi.Trust.{TrustDates, TrustDisposition, assert_current, VerificationState, assess_trust}
use bardi.Catalog.{EvidenceLinkSnapshot, SourceSnapshot}
use bardi.Public.{PublicSource}

unfoldable pub public_source : SourceSnapshot → PublicSource
public_source source = record {
  id = source.semantic_id;
  authority_id = source.authority.semantic_id;
  title = source.title;
  locator = source.locator;
  classification = source.classification;
  retrieved_on = source.retrieved_on;
}

-- `disposition == "assert_current"`
abbrev pub is_assert_current : TrustDisposition → Bool
is_assert_current assert_current = true
is_assert_current _ = false

unfoldable pub source_is_current : SourceSnapshot → Date → Bool
source_is_current source evaluation_date =
    is_assert_current
      (assess_trust evaluation_date
        (record {
          verified_on = none;
          reverify_on = source.reverify_on;
          effective_from = source.effective_from;
          effective_to = source.effective_to;
          retrieved_on = some source.retrieved_on;
        })
        VerificationState.current).disposition

unfoldable pub link_is_current : EvidenceLinkSnapshot → Date → Bool
link_is_current link evaluation_date =
    is_assert_current
      (assess_trust evaluation_date
        (record {
          verified_on = link.verified_on;
          reverify_on = link.reverify_on;
          effective_from = link.effective_from;
          effective_to = link.effective_to;
          retrieved_on = link.retrieved_on;
        })
        link.verification_state).disposition

pub record Support : Type 0 where
  pub sources : Dict PublicSource
  pub contradiction : Bool

-- `for source in link.sources: sources[source.semantic_id] = _public_source(source)`
unfoldable pub put_sources : Dict PublicSource → List SourceSnapshot → Dict PublicSource
put_sources sources [] = sources
put_sources sources (s ∷ more) = put_sources (Dict.put sources s.semantic_id (public_source s)) more

module _ (evaluation_date : Date) (official_only : Bool) where
  -- One round of the loop; each `continue` returns the state as it is.
  weigh_link : Support → EvidenceLinkSnapshot → Support
  weigh_link s link =
      if not (link_is_current link evaluation_date) || is_empty link.sources
      then s
      else if not (all (λ source. source_is_current source evaluation_date) link.sources)
      then s
      else if str_eq link.support_status "contradicts"
      then record s { contradiction = true }
      else if not (str_eq link.support_status "supports")
      then s
      else if official_only
          && not (all (λ source. str_eq source.classification "official") link.sources)
      then s
      else record s { sources = put_sources s.sources link.sources }

  weigh_links : Support → List EvidenceLinkSnapshot → Support
  unfolding weigh_link
  weigh_links s [] = s
  weigh_links s (link ∷ links) = weigh_links (weigh_link s link) links

  unfoldable pub supporting_sources : List EvidenceLinkSnapshot → Option (List PublicSource)
  unfolding weigh_links
  supporting_sources links =
      let start : Support = record { sources = []; contradiction = false } in
      let s = weigh_links start links in
      if s.contradiction || is_empty s.sources then none else some (Dict.values s.sources)

claims_from : Dict PublicSource → List EvidenceLinkSnapshot → Dict PublicSource
claims_from sources [] = sources
claims_from sources (link ∷ links) =
    claims_from
      (if not (str_eq link.support_status "supports")
        then sources
        else put_sources sources link.sources)
      links

unfoldable pub claim_sources : List EvidenceLinkSnapshot → List PublicSource
unfolding claims_from
claim_sources links = Dict.values (claims_from [] links)
