-- ===== src/Http/Delete.antt =====
-- src/http.rs: the handler of `DELETE`. The two queries of a probe are parameters over the stores'
-- state, as is `state_of`, the validator of an event.
use quadpod.Prelude.{Bool, true, false, Option, none, some, List, [], ◌∷◌, Text, Result, ok, err}
use quadpod.Space.{
  AuxKind, ResourceUrl, ContainerUrl, AuxUrl, Target, resource, container, aux, all_kinds, aux_of,
  parent,
}
use quadpod.Store.{Backend}
use quadpod.Resource.{ResourceError}
use quadpod.Resource.Graphs.{delete_rdf}
use quadpod.Resource.Datasets.{Crates}
use quadpod.Container.Members.{container_is_empty}
use quadpod.Aux.{delete_subject}
use quadpod.Wac.{write}
use quadpod.Wac.Pdp.{Agent}
use quadpod.Wac.Prp.{Row}
use quadpod.Wac.Guard.{Denial, Guard, probe, authorize, authorize_parent, authorize_aux}
use quadpod.Notify.{Broadcast, World}
use quadpod.Notify.Emit.{emit_delete}
use quadpod.Http.{Response, of_status, with_aux_links, internal_error, denial_response}

-- The loop over the kinds: the auxiliaries that are there, if each may be removed.
unfoldable pub present_auxes : Guard → ResourceUrl → List AuxKind → Result Denial (List AuxUrl)
present_auxes g subject [] = ok []
present_auxes g subject (k ∷ ks) = elim (authorize_aux g k) [
  | err d ↦ err d
  | ok found ↦ elim (present_auxes g subject ks) [
    | err d ↦ err d
    | ok rest ↦ ok (elim found [ some _ ↦ aux_of subject k ∷ rest | none ↦ rest ])
  ]
]

abbrev pub refused : Denial → Target → Response
refused d target = with_aux_links (denial_response d) target

abbrev pub aux_response : Result ResourceError Bool → Response
aux_response (ok true) = of_status 204
aux_response (ok false) = of_status 404
aux_response (err e) = internal_error

abbrev pub subject_response : Target → Result ResourceError Bool → Response
subject_response target (ok true) = of_status 204
subject_response target (ok false) = with_aux_links (of_status 404) target
subject_response target (err e) = internal_error

module _ {HeaderValue W : Type 0} (crates : Crates HeaderValue) (b : Backend W)
    (exists_many : List Text → W → Result ResourceError (List Text))
    (query_solutions : Text → W → Result ResourceError (List Row)) where
  -- A response, the auxiliaries that the event names unless the handler returned before it, and the
  -- stores' state.
  abbrev pub Answer : Type 0
  Answer = Response × Option (List AuxUrl) × W

  abbrev pub probed : Agent → Target → W → Result Denial Guard
  probed agent target w = probe (λ gs. exists_many gs w) (λ q. query_solutions q w) agent target

  -- From the authorization of the cascade on.
  unfoldable pub delete_last : Target → ResourceUrl → List AuxUrl → W → Answer
  delete_last target subject auxes w =
      let (deleted, w') = delete_subject crates b subject w in
      (subject_response target deleted, some auxes, w')

  unfoldable pub delete_if_empty :
      ContainerUrl → List AuxUrl → Result ResourceError Bool → W → Answer
  delete_if_empty c auxes (ok true) w = delete_last (container c) c.as_resource auxes w
  delete_if_empty c auxes (ok false) w = (of_status 409, none, w)
  delete_if_empty c auxes (err e) w = (internal_error, none, w)

  unfoldable pub delete_authorized : Guard → Target → W → Answer
  delete_authorized g (aux a) w =
      let (deleted, w') = delete_rdf b a.iri w in (aux_response deleted, some [], w')
  delete_authorized g (resource r) w = elim (authorize_parent g write) [
    | err d ↦ (refused d (resource r), none, w)
    | ok _ ↦ elim (present_auxes g r all_kinds) [
      | err d ↦ (refused d (resource r), none, w)
      | ok auxes ↦ delete_last (resource r) r auxes w
    ]
  ]
  delete_authorized g (container c) w = elim (authorize_parent g write) [
    | err d ↦ (refused d (container c), none, w)
    | ok _ ↦ elim (present_auxes g c.as_resource all_kinds) [
      | err d ↦ (refused d (container c), none, w)
      | ok auxes ↦ elim (parent c.as_resource) [
        | none ↦ (of_status 405, none, w)
        | some _ ↦ let (empty, w1) = container_is_empty b c w in delete_if_empty c auxes empty w1
      ]
    ]
  ]

  unfoldable pub delete_write : Agent → Target → W → Answer
  delete_write agent target w = elim (probed agent target w) [
    | err d ↦ (refused d target, none, w)
    | ok g ↦ elim (authorize g write) [
      | err d ↦ (refused d target, none, w)
      | ok _ ↦ delete_authorized g target w
    ]
  ]

  -- The whole handler, with the notification registry.
  unfoldable pub delete_impl :
      {Channels : Type 0}
      → Broadcast Channels
      → (Target → Option Text)
      → Agent
      → Target
      → W
      → World Channels
      → Response × W × World Channels
  delete_impl broadcast state_of agent target w bus =
      let (res, auxes, w') = delete_write agent target w in
      (
        res,
        w',
        elim auxes [
          | none ↦ bus
          | some named ↦ emit_delete broadcast state_of target named res.status bus
        ],
      )
