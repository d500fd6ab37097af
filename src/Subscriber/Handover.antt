-- ===== src/Subscriber/Handover.antt =====
-- Deliveries are handed over once and in order, before they are acknowledged.
use thiam_api.Base.{
  ℕ, ◌≡◌, refl, sym, subst, ap, ◌∙◌, Bool, true, false, List, [], ◌∷◌, ◌++◌, map, if◌then◌else◌,
  append_nil,
}
use thiam_api.Subscriber.{
  Delivery, BusEvent, bus_event, Phase, selecting, ended, sending, acking, Forwarder, Step, finish,
  receive, hand, acknowledge, Steps, none_yet, one_more,
}

-- What was received and not handed over yet.
abbrev pub in_flight : Phase → List BusEvent
in_flight selecting = []
in_flight ended = []
in_flight (sending d) = bus_event d ∷ []
in_flight (acking d) = []

-- The tags of some of these deliveries, in their order.
pub data TagsOf : List ℕ → List Delivery → Type 0 where
  no_tags : TagsOf [] []
  tag_kept :
      (d : Delivery) (ks : List ℕ) (ds : List Delivery)
      → TagsOf ks ds
      → TagsOf (d.tag ∷ ks) (d ∷ ds)
  tag_lost : (d : Delivery) (ks : List ℕ) (ds : List Delivery) → TagsOf ks ds → TagsOf ks (d ∷ ds)

TagsOf-kept :
    (ks : List ℕ) (ds : List Delivery) (d : Delivery)
    → TagsOf ks ds
    → TagsOf (ks ++ d.tag ∷ []) (ds ++ d ∷ [])
TagsOf-kept ks ds d no_tags = tag_kept d [] [] no_tags
TagsOf-kept ks ds d (tag_kept e ls es h) = tag_kept e _ _ (TagsOf-kept ls es d h)
TagsOf-kept ks ds d (tag_lost e ls es h) = tag_lost e _ _ (TagsOf-kept ls es d h)

TagsOf-lost :
    (ks : List ℕ) (ds : List Delivery) (d : Delivery) → TagsOf ks ds → TagsOf ks (ds ++ d ∷ [])
TagsOf-lost ks ds d no_tags = tag_lost d [] [] no_tags
TagsOf-lost ks ds d (tag_kept e ls es h) = tag_kept e _ _ (TagsOf-lost ls es d h)
TagsOf-lost ks ds d (tag_lost e ls es h) = tag_lost e _ _ (TagsOf-lost ls es d h)

TagsOf-acknowledged :
    (through : Bool) (ks : List ℕ) (ds : List Delivery) (d : Delivery)
    → TagsOf ks ds
    → TagsOf (if through then ks ++ d.tag ∷ [] else ks) (ds ++ d ∷ [])
TagsOf-acknowledged true ks ds d h = TagsOf-kept ks ds d h
TagsOf-acknowledged false ks ds d h = TagsOf-lost ks ds d h

-- What is acknowledged was received before the delivery that is being handed over.
abbrev pub AckedBefore : Phase → List Delivery → List ℕ → Type 0
AckedBefore selecting ds ks = TagsOf ks ds
AckedBefore ended ds ks = TagsOf ks ds
AckedBefore (sending d) ds ks = (rest : List Delivery) × (ds ≡ rest ++ d ∷ []) × TagsOf ks rest
AckedBefore (acking d) ds ks = (rest : List Delivery) × (ds ≡ rest ++ d ∷ []) × TagsOf ks rest

abbrev pub HandsOver : Forwarder → Type 0
HandsOver s =
    (map bus_event s.received ≡ s.handed ++ in_flight s.phase)
    × AckedBefore s.phase s.received s.acked

map-end :
    (ds : List Delivery) (d : Delivery)
    → map bus_event (ds ++ d ∷ []) ≡ map bus_event ds ++ bus_event d ∷ []
map-end [] d = refl
map-end (e ∷ ds) d = ap (◌∷◌ (bus_event e)) (map-end ds d)

-- The invariant, for a phase that is known.
HoldsAt : Forwarder → Phase → Type 0
HoldsAt s p =
    (map bus_event s.received ≡ s.handed ++ in_flight p) × AckedBefore p s.received s.acked

Step-HandsOver : (s t : Forwarder) → Step s t → HandsOver s → HandsOver t
unfolding HoldsAt
Step-HandsOver s t (finish e) h = subst (HoldsAt s) e h
Step-HandsOver s t (receive d e) h =
    let k = subst (HoldsAt s) e h in
    (
      map-end s.received d ∙ ap (λ es. es ++ bus_event d ∷ []) (k.0 ∙ append_nil s.handed),
      (s.received, refl, k.1),
    )
Step-HandsOver s t (hand d e) h =
    let k = subst (HoldsAt s) e h in (k.0 ∙ sym (append_nil (s.handed ++ bus_event d ∷ [])), k.1)
Step-HandsOver s t (acknowledge d through e) h =
    let k = subst (HoldsAt s) e h in
    (k.0, subst (TagsOf _) (sym k.1.1) (TagsOf-acknowledged through s.acked k.1.0 d k.1.2))

-- However long the subscriber runs, the events that its reader got are those of the deliveries that it
-- received, each once and in order, but for one that is being handed over; and the tags that are
-- acknowledged are those of deliveries whose events the reader got, each once and in order; if
-- that was so at the start.
pub Steps-HandsOver : (s t : Forwarder) → Steps s t → HandsOver s → HandsOver t
Steps-HandsOver s t (none_yet u) h = h
Steps-HandsOver s t (one_more u v w past last) h =
    Step-HandsOver v w last (Steps-HandsOver u v past h)
