-- ===== src/Images/Registry/Counting.antt =====
-- The calls that the methods of internal/images/registryclient.go make of the registry, against the
-- counter of internal/metrics.
use application_controller.Common.{String, List, [], ◌∷◌, map, concat, ◌≡◌, refl, ap}
use application_controller.Errors.{Error, Result, ok, err}
use application_controller.Images.ImageRef.{ImageRef, to_string}
use application_controller.Images.Registry.{
  returned, panicked, Remote, Labels, SimpleRegistryClient, Request, listed, got, Lookups, opts,
  list_tags, get_digest, success_label, explained, or_panic,
}

module _ (remote : Remote) where
  -- What the counter has to say of a call: whom it asked, how, and whether the answer is no error.
  labels_of : Request remote → Labels
  unfolding success_label
  labels_of (listed repository options) = record {
    registry = remote.registry_str repository;
    repository = remote.repository_str repository;
    method = "list_tags";
    success = success_label remote (remote.list repository options);
  }
  labels_of (got reference options) = record {
    registry = remote.registry_str (remote.context reference);
    repository = remote.repository_str (remote.context reference);
    method = "get_digest";
    success = success_label remote (remote.get reference options);
  }

  -- The counter has one increment for each call of the registry, in their order.
  abbrev IsCounted : Lookups remote → Type 0
  IsCounted s = s.counter ≡ map labels_of s.requests

  module _ (c : SimpleRegistryClient remote) (ref : ImageRef) (s : Lookups remote) where
    -- Where name.ParseReference accepts the reference, ListTags makes one call, and if the counter
    -- agreed with the calls before, it agrees with them after.
    list_tags-IsCounted :
        (reference : remote.Reference)
        → remote.parse_reference (to_string ref) ≡ ok reference
        → IsCounted s
        → (answer : Result (List String)) × (t : Lookups remote) × (list_tags remote c ref s
            ≡ returned (answer, t))
          × (t.requests ≡ listed (remote.context reference) (opts remote c) ∷ s.requests)
          × IsCounted t
    unfolding list_tags labels_of
    list_tags-IsCounted reference parses counted =
        let request : Request remote = listed (remote.context reference) (opts remote c) in
        (
          explained remote
              (concat ("failed to fetch list of tags for " ∷ ref.repository ∷ ": " ∷ []))
              (remote.list (remote.context reference) (opts remote c)),
          record { requests = request ∷ s.requests; counter = labels_of request ∷ s.counter },
          rw (parses, or_panic),
          refl,
          ap (λ before. labels_of request ∷ before) counted,
        )

    -- The same of GetDigest.
    get_digest-IsCounted :
        (reference : remote.Reference)
        → remote.parse_reference (to_string ref) ≡ ok reference
        → IsCounted s
        → (answer : Result String) × (t : Lookups remote) × (get_digest remote c ref s
            ≡ returned (answer, t))
          × (t.requests ≡ got reference (opts remote c) ∷ s.requests)
          × IsCounted t
    unfolding get_digest labels_of
    get_digest-IsCounted reference parses counted =
        let request : Request remote = got reference (opts remote c) in
        (
          explained remote (concat ("failed to retrieve digest for " ∷ to_string ref ∷ ": " ∷ []))
              (remote.get reference (opts remote c)),
          record { requests = request ∷ s.requests; counter = labels_of request ∷ s.counter },
          rw (parses, or_panic),
          refl,
          ap (λ before. labels_of request ∷ before) counted,
        )

    -- Both panic on a reference that name.ParseReference refuses, before they call the registry.
    list_tags_panics :
        (e : Error)
        → remote.parse_reference (to_string ref) ≡ err e
        → (list_tags remote c ref s ≡ panicked e) × (get_digest remote c ref s ≡ panicked e)
    unfolding list_tags get_digest
    list_tags_panics e refused = (rw (refused, or_panic), rw (refused, or_panic))
