-- ===== src/Snapshot/Evidence/Adequacy.antt =====
-- When captured evidence is adequate.
use bardi.Prelude.{
  ◌≡◌, refl, Bool, true, false, not, ◌&&◌, ◌||◌, List, [], ◌∷◌, any, all, str_eq, if◌then◌else◌,
  arith,
}
use bardi.Prelude.{subst, not_true, Bool-cases, inl, inr}
use bardi.Snapshot.{Library, is_blank}
use bardi.Snapshot.Evidence.{
  EvidenceInfo, is_current, is_contradiction, has_sources, is_detailed, is_undated_report,
  is_core_support, adequate, adequate_from, routing_evidence_is_adequate,
}

or_true : (b : Bool) → (b || true) ≡ true
or_true true = refl
or_true false = refl

and_split : (a b : Bool) → (a && b) ≡ true → (a ≡ true) × (b ≡ true)
and_split true b h = (refl, h)
and_split false b h = cc

adequate_step :
    (passage location context undated contradiction found support sound others : Bool)
    → (if passage || (location || context)
        then false
        else if undated
        then false
        else if contradiction
        then false
        else (sound && ((found || support) || others)))
      ≡ ((((not passage && (not location && not context)) && (not undated && not contradiction))
            && sound)
          && (found || (support || others)))
adequate_step passage location context undated contradiction found support sound others =
    ground arith

module _ {A : Type 0} (q p : A → Bool) where
  any_none :
      ((x : A) → q x ≡ true → p x ≡ false) → (xs : List A) → all q xs ≡ true → any p xs ≡ false
  any_none h [] all_q = refl
  any_none h (x ∷ xs) all_q =
      let (here, rest) = and_split (q x) (all q xs) all_q in rw (h x here) (any_none h xs rest)

  any_mono :
      (r : A → Bool)
      → ((x : A) → q x ≡ true → p x ≡ true → r x ≡ true)
      → (xs : List A) → all q xs ≡ true
      → any p xs ≡ true
      → any r xs ≡ true
  any_mono r h [] all_q any_p = any_p
  any_mono r h (x ∷ xs) all_q any_p =
      let (here, rest) = and_split (q x) (all q xs) all_q in
      elim (Bool-cases (p x)) [
        | inl e ↦ rw (h x here e) refl
        | inr e ↦ rw (any_mono r h xs rest (rw e at any_p)) (or_true (r x))
      ]

module _ (library : Library) where
  -- A link that does not disqualify the evidence: its texts are written, each field report among its
  -- sources is dated and has a context, and it is no contradiction in effect.
  abbrev pub is_sound_link : EvidenceInfo → Bool
  is_sound_link link =
      is_detailed library link
      && (not (any (is_undated_report library) link.sources) && not (is_contradiction link))

  -- A link that supports the claim.
  abbrev pub is_support : EvidenceInfo → Bool
  is_support link = is_current link && (str_eq link.support_status "supports" && has_sources link)

  adequate_from-all :
      (found : Bool) (links : List EvidenceInfo)
      → adequate_from library found links
        ≡ (all is_sound_link links && (found || any is_support links))
  unfolding adequate_from
  adequate_from-all found [] = ground arith
  adequate_from-all found (link ∷ links) = rw (adequate_from-all (found || is_support link) links) (
      adequate_step (is_blank library link.passage) (is_blank library link.location)
        (is_blank library link.applicability_context) (any (is_undated_report library) link.sources)
        (is_contradiction link) found (is_support link) (all is_sound_link links)
        (any is_support links))

  contradiction_lem :
      (link : EvidenceInfo) → is_sound_link link ≡ true → is_contradiction link ≡ false
  contradiction_lem link h =
      let (_, rest) = and_split (is_detailed library link) _ h in
      not_true (is_contradiction link)
        (and_split (not (any (is_undated_report library) link.sources)) _ rest).1

  support_lem :
      (link : EvidenceInfo)
      → is_sound_link link ≡ true
      → is_support link ≡ true
      → is_core_support library link ≡ true
  support_lem link h s =
      let (detailed, _) = and_split (is_detailed library link) _ h in
      let (current, rest) = and_split (is_current link) _ s in
      let (supports, sourced) = and_split (str_eq link.support_status "supports") _ rest in
      rw (current, supports) (rw sourced detailed)

  -- Evidence is adequate for routing exactly if some link supports the claim and no link
  -- disqualifies it, whatever the order of the links.
  pub routing_evidence_is_adequate-all :
      (links : List EvidenceInfo)
      → routing_evidence_is_adequate library links
        ≡ (all is_sound_link links && any is_support links)
  unfolding routing_evidence_is_adequate
  routing_evidence_is_adequate-all links = adequate_from-all false links

  -- Evidence that is adequate for routing is adequate for the core.
  pub routing_evidence-adequate :
      (links : List EvidenceInfo)
      → routing_evidence_is_adequate library links ≡ true
      → adequate library links ≡ true
  unfolding adequate
  routing_evidence-adequate links h =
      let both = subst (λ b. b ≡ true) (routing_evidence_is_adequate-all links) h in
      let (sound, supported) = and_split (all is_sound_link links) (any is_support links) both in
      let some_support =
        any_mono is_sound_link is_support (is_core_support library) support_lem links sound
          supported in
      let no_contradiction =
        any_none is_sound_link is_contradiction contradiction_lem links sound in
      rw (some_support, no_contradiction) refl
