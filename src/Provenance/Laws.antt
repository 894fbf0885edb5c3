-- ===== src/Provenance/Laws.antt =====
-- When a claim has supporting sources, and where they come from.
use bardi.Prelude.{
  ◌≡◌, ◌⊎◌, inl, inr, refl, sym, subst, Bool, true, false, not, ◌&&◌, ◌||◌, none, some, List, [],
  ◌∷◌, all, any, is_empty, is_some, str_eq, str_lt, if◌then◌else◌, All, arith, eq_iff, Bool-cases,
  String, some_inj,
}
use bardi.Dict
use bardi.Dict.{Dict}
use bardi.Calendar.{Date}
use bardi.Catalog.{EvidenceLinkSnapshot, SourceSnapshot}
use bardi.Public.{PublicSource}
use bardi.Provenance.{
  Support, public_source, source_is_current, link_is_current, put_sources, weigh_link, weigh_links,
  supporting_sources,
}

module _ (d : Date) where
  -- A link that counts: asserted at the date, with sources, each of them current.
  abbrev pub counts : EvidenceLinkSnapshot → Bool
  counts link =
      link_is_current link d
      && (not (is_empty link.sources) && all (λ source. source_is_current source d) link.sources)

  abbrev pub contradicts_now : EvidenceLinkSnapshot → Bool
  contradicts_now link = counts link && str_eq link.support_status "contradicts"

  abbrev pub supports_now : Bool → EvidenceLinkSnapshot → Bool
  supports_now official_only link =
      counts link
      && (str_eq link.support_status "supports"
          && (not official_only
              || all (λ source. str_eq source.classification "official") link.sources))

  is_empty-put :
      (m : Dict PublicSource) (k : String) (v : PublicSource) → is_empty (Dict.put m k v) ≡ false
  unfolding Dict.put
  is_empty-put [] k v = refl
  is_empty-put ((j, w) ∷ m) k v = ground arith

  is_empty-put_sources :
      (m : Dict PublicSource) (xs : List SourceSnapshot)
      → is_empty (put_sources m xs) ≡ (is_empty m && is_empty xs)
  unfolding put_sources
  is_empty-put_sources m [] = ground arith
  is_empty-put_sources m (x ∷ xs) = ground (
    arith,
    is_empty-put_sources (Dict.put m x.semantic_id (public_source x)) xs,
    is_empty-put m x.semantic_id (public_source x),
  )

  contradicts-not_supports :
      (s : String) → str_eq s "contradicts" ≡ true → str_eq s "supports" ≡ false
  contradicts-not_supports s h =
      subst (λ x. str_eq x "supports" ≡ false) (sym ((eq_iff s "contradicts").0 h)) refl

  weigh_link_lem :
      (o : Bool) (s : Support) (link : EvidenceLinkSnapshot)
      → ((weigh_link d o s link).contradiction ≡ (s.contradiction || contradicts_now link))
        × (is_empty (weigh_link d o s link).sources
            ≡ (is_empty s.sources && not (supports_now o link)))
  unfolding weigh_link
  weigh_link_lem o s link = elim (Bool-cases (str_eq link.support_status "contradicts")) [
    | inl e ↦ ground (arith, contradicts-not_supports link.support_status e)
    | inr e ↦ ground (arith, is_empty-put_sources s.sources link.sources)
  ]

  weigh_link_cases :
      (o : Bool) (s : Support) (link : EvidenceLinkSnapshot)
      → ((weigh_link d o s link).sources ≡ s.sources)
        ⊎ ((supports_now o link ≡ true)
            × ((weigh_link d o s link).sources ≡ put_sources s.sources link.sources))
  unfolding weigh_link
  weigh_link_cases o s link = ground arith

  weigh_links_lem :
      (o : Bool) (s : Support) (links : List EvidenceLinkSnapshot)
      → ((weigh_links d o s links).contradiction ≡ (s.contradiction || any contradicts_now links))
        × (is_empty (weigh_links d o s links).sources
            ≡ (is_empty s.sources && not (any (supports_now o) links)))
  unfolding weigh_links
  weigh_links_lem o s [] = ground arith
  weigh_links_lem o s (link ∷ links) =
      ground (arith, weigh_link_lem o s link, weigh_links_lem o (weigh_link d o s link) links)

-- Sources are returned exactly when some link supports the claim at the date and no link contradicts
-- it then. Only a link that is asserted at the date, and whose sources are all current, counts either
-- way; with `official_only` a supporting link's sources are all official.
pub is_some-supporting_sources :
    (d : Date) (official_only : Bool) (links : List EvidenceLinkSnapshot)
    → is_some (supporting_sources d official_only links)
      ≡ (any (supports_now d official_only) links && not (any (contradicts_now d) links))
unfolding supporting_sources
is_some-supporting_sources d official_only links =
    ground (
      arith,
      weigh_links_lem d official_only (record { sources = []; contradiction = false }) links,
    )

returned_values :
    {A : Type 0} (b : Bool) (xs : A) {ys : A} → (if b then none else some xs) ≡ some ys → xs ≡ ys
returned_values true xs h = cc
returned_values false xs h = some_inj h

module _ (P : PublicSource → Type 0) where
  put-All :
      (m : Dict PublicSource) (k : String) (v : PublicSource)
      → P v
      → All P (Dict.values m)
      → All P (Dict.values (Dict.put m k v))
  unfolding Dict.put Dict.values
  put-All [] k v new old = (new, tt)
  put-All ((j, w) ∷ m) k v new old = elim (Bool-cases (str_eq j k)) [
    | inl same ↦ rw same (new, old.1)
    | inr other ↦ elim (Bool-cases (str_lt k j)) [
      | inl lt ↦ rw (other, lt) (new, old)
      | inr ge ↦ rw (other, ge) (old.0, put-All m k v new old.1)
    ]
  ]

  put_sources-All :
      (m : Dict PublicSource) (xs : List SourceSnapshot)
      → All (λ x. P (public_source x)) xs
      → All P (Dict.values m)
      → All P (Dict.values (put_sources m xs))
  unfolding put_sources
  put_sources-All m [] new old = old
  put_sources-All m (x ∷ xs) new old =
      put_sources-All (Dict.put m x.semantic_id (public_source x)) xs new.1
        (put-All m x.semantic_id (public_source x) new.0 old)

  module _ (d : Date) (o : Bool) where
    weigh_link-All :
        (s : Support) (link : EvidenceLinkSnapshot)
        → (supports_now d o link ≡ true → All (λ x. P (public_source x)) link.sources)
        → All P (Dict.values s.sources)
        → All P (Dict.values (weigh_link d o s link).sources)
    weigh_link-All s link new old = elim (weigh_link_cases d o s link) [
      | inl same ↦ subst (λ m. All P (Dict.values m)) (sym same) old
      | inr (supported, put) ↦
          subst (λ m. All P (Dict.values m)) (sym put)
            (put_sources-All s.sources link.sources (new supported) old)
    ]

    weigh_links-All :
        (s : Support) (links : List EvidenceLinkSnapshot)
        → All
            (λ link. supports_now d o link ≡ true → All (λ x. P (public_source x)) link.sources)
            links
        → All P (Dict.values s.sources)
        → All P (Dict.values (weigh_links d o s links).sources)
    unfolding weigh_links
    weigh_links-All s [] new old = old
    weigh_links-All s (link ∷ links) new old =
        weigh_links-All (weigh_link d o s link) links new.1 (weigh_link-All s link new.0 old)

-- Whatever holds of the public form of every source of the links that support the claim now holds of
-- every returned source.
pub supporting_sources-All :
    (P : PublicSource → Type 0) (d : Date) (official_only : Bool)
    (links : List EvidenceLinkSnapshot) (sources : List PublicSource)
    → All
        (λ link.
          supports_now d official_only link ≡ true → All (λ x. P (public_source x)) link.sources)
        links
    → supporting_sources d official_only links ≡ some sources
    → All P sources
unfolding supporting_sources
supporting_sources-All P d official_only links sources h e =
    let start : Support = record { sources = []; contradiction = false } in
    subst (All P) (returned_values _ _ e)
      (weigh_links-All P d official_only start links h (unfold Dict.values in tt))
