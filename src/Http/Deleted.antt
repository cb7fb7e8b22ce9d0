-- ===== src/Http/Deleted.antt =====
-- What `delete_impl` of src/http.rs did, by its response.
use mathlib.Core.Path.{subst}
use quadpod.Prelude.{
  ℕ, ◌≡◌, ◌⊎◌, refl, inl, inr, Bool, true, false, Option, none, some, List, [], ◌∷◌, nat_eq,
  list_eq, Text, Result, ok, err, Result-cases, Option-cases,
}
use quadpod.Space.{
  ResourceUrl, ContainerUrl, AuxUrl, Target, resource, container, aux, all_kinds, parent,
}
use quadpod.Store.{Fact, Backend}
use quadpod.Store.Laws.{BackendLaws}
use quadpod.Resource.{ResourceError}
use quadpod.Resource.Graphs.{delete_rdf}
use quadpod.Resource.Datasets.{Crates}
use quadpod.Resource.Reads.{Outcome}
use quadpod.Container.Members.{container_is_empty}
use quadpod.Aux.{delete_subject}
use quadpod.Aux.Deleted.{IsGone, delete_subject-IsGone}
use quadpod.Wac.{Decision, write}
use quadpod.Wac.Pdp.{Agent}
use quadpod.Wac.Prp.{Row}
use quadpod.Wac.Guard.{Denial, Guard, subject_of, chain_of, authorize, authorize_parent}
use quadpod.Wac.Guard.Decisions.{IsGranted, authorize-IsGranted}
use quadpod.Http.Allowed.{above, MayCascade, allowed-MayCascade, probe-chain}
use quadpod.Notify.Emit.{is_success}
use quadpod.Http.{Response, of_status}
use quadpod.Http.Delete.{
  present_auxes, refused, probed, aux_response, subject_response, delete_last, delete_if_empty,
  delete_authorized, delete_write,
}
use quadpod.Http.Gone.{
  with_aux_links-status, refused_not_success, GraphGone, delete_rdf-GraphGone, HasNoMember,
  container_is_empty-HasNoMember,
}

module _ {HeaderValue W : Type 0} (crates : Crates HeaderValue) (b : Backend W)
    (exists_many : List Text → W → Result ResourceError (List Text))
    (query_solutions : Text → W → Result ResourceError (List Row)) (holds : W → Text → Fact → Bool)
    (object : W → Text → Option Text) (laws : BackendLaws b holds object) (agent : Agent)
    (w : W) where
  abbrev pub MayDelete : Guard → Target → List AuxUrl → Type 0
  MayDelete g (aux a) named = named ≡ []
  MayDelete g (resource r) named = MayCascade g r named
  MayDelete g (container c) named =
      MayCascade g c.as_resource named
      × ((p : ContainerUrl) × (parent c.as_resource ≡ some p))
      × HasNoMember b holds object laws w c

  abbrev pub Removed : Target → Bool → W → Type 0
  Removed (aux a) existed w' = GraphGone b holds object laws w a.iri existed w'
  Removed (resource r) existed w' = IsGone crates b holds object laws r w w' existed
  Removed (container c) existed w' = IsGone crates b holds object laws c.as_resource w w' existed

  pub record Deletion (target : Target) (status : ℕ) (named : List AuxUrl) (w' : W) : Type 0 where
    pub guard : Guard
    pub probe : probed crates b exists_many query_solutions agent target w ≡ ok guard
    pub decision : Decision
    pub chain : guard.chain ≡ chain_of target
    pub granted : IsGranted guard write decision
    pub may : MayDelete guard target named
    pub outcome :
        ((status ≡ 204) × Removed target true w')
        ⊎ (((status ≡ 404) × Removed target false w') ⊎ (status ≡ 500))

  -- By what the handler hands to the event: nothing where it returned early.
  abbrev pub Answered : Target → Response → Option (List AuxUrl) → W → Type 0
  Answered target res none w' = (is_success res.status ≡ false) × (w' ≡ w)
  Answered target res (some named) w' = Deletion target res.status named w'

  abbrev Meets : Target → Response × Option (List AuxUrl) × W → Type 0
  Meets target (res, named, w') = Answered target res named w'

  module _ (target : Target) (g : Guard) (d : Decision)
      (probe : probed crates b exists_many query_solutions agent target w ≡ ok g)
      (granted : authorize g write ≡ ok d) where
    chain_known : g.chain ≡ chain_of target
    chain_known = probe-chain (λ gs. exists_many gs w) (λ q. query_solutions q w) agent target probe

    deletion :
        (status : ℕ) (named : List AuxUrl) (w' : W)
        → MayDelete g target named
        → ((status ≡ 204) × Removed target true w')
          ⊎ (((status ≡ 404) × Removed target false w') ⊎ (status ≡ 500))
        → Deletion target status named w'
    deletion status named w' may outcome = record {
      guard = g;
      probe = probe;
      decision = d;
      chain = chain_known;
      granted = authorize-IsGranted g write granted;
      may = may;
      outcome = outcome;
    }

    -- The removal of a subject, once everything allows it.
    subject_deleted :
        (subject : ResourceUrl) (named : List AuxUrl)
        → MayDelete g target named
        → ((existed : Bool) (w' : W)
            → IsGone crates b holds object laws subject w w' existed
            → Removed target existed w')
        → Meets target (delete_last crates b exists_many query_solutions target subject named w)
    unfolding delete_last
    subject_deleted subject named may gone =
        finish (delete_subject crates b subject w).0 (delete_subject crates b subject w).1 refl
      where
        finish :
            (r : Result ResourceError Bool) (w' : W)
            → delete_subject crates b subject w ≡ (r, w')
            → Meets target (subject_response target r, some named, w')
        finish (ok true) w' h = deletion 204 named w' may (
            inl (
              refl,
              gone true w' (delete_subject-IsGone crates b holds object laws subject w w' h),
            ))
        finish (ok false) w' h =
            let status = with_aux_links-status (of_status 404) target in
            deletion _ named w' may (
              inr (
                inl (
                  status,
                  gone false w' (delete_subject-IsGone crates b holds object laws subject w w' h),
                )))
        finish (err x) w' h = deletion 500 named w' may (inr (inr refl))

    refuses : (e : Denial) → Meets target (refused e target, none, w)
    refuses e = (refused_not_success e target, refl)

  aux_deleted :
      (a : AuxUrl) (g : Guard) (d : Decision)
      → probed crates b exists_many query_solutions agent (aux a) w ≡ ok g
      → authorize g write ≡ ok d
      → Meets (aux a) (delete_authorized crates b exists_many query_solutions g (aux a) w)
  unfolding delete_authorized
  aux_deleted a g d probe granted = finish (delete_rdf b a.iri w).0 (delete_rdf b a.iri w).1 refl
    where
      finish :
          (r : Result ResourceError Bool) (w' : W)
          → delete_rdf b a.iri w ≡ (r, w')
          → Meets (aux a) (aux_response r, some [], w')
      finish (ok true) w' h =
          deletion (aux a) g d probe granted 204 [] w' refl
            (inl (refl, delete_rdf-GraphGone b holds object laws w a.iri true w' h))
      finish (ok false) w' h =
          deletion (aux a) g d probe granted 404 [] w' refl
            (inr (inl (refl, delete_rdf-GraphGone b holds object laws w a.iri false w' h)))
      finish (err x) w' h = deletion (aux a) g d probe granted 500 [] w' refl (inr (inr refl))

  if_empty :
      (c : ContainerUrl) (g : Guard) (d : Decision)
      → probed crates b exists_many query_solutions agent (container c) w ≡ ok g
      → authorize g write ≡ ok d
      → (named : List AuxUrl) → MayCascade g c.as_resource named
      → (p : ContainerUrl) → parent c.as_resource ≡ some p
      → (empty : Result ResourceError Bool) (w1 : W)
      → Outcome (λ e. e ≡ true → HasNoMember b holds object laws w c) empty
      → w1 ≡ w
      → Meets (container c) (delete_if_empty crates b exists_many query_solutions c named empty w1)
  unfolding delete_if_empty
  if_empty c g d probe granted named cascade p hr (ok true) w1 none_there still = rw still (
      subject_deleted (container c) g d probe granted c.as_resource named
        (cascade, (p, hr), none_there refl) (λ existed w' gone. gone))
  if_empty c g d probe granted named cascade p hr (ok false) w1 x still = (refl, still)
  if_empty c g d probe granted named cascade p hr (err e) w1 x still = (refl, still)

  resource_chain :
      (r : ResourceUrl) (g : Guard) (d : Decision)
      → probed crates b exists_many query_solutions agent (resource r) w ≡ ok g
      → authorize g write ≡ ok d
      → g.chain ≡ r ∷ above r
  resource_chain r g d probe granted =
      unfold chain_of subject_of in chain_known (resource r) g d probe granted

  container_chain :
      (c : ContainerUrl) (g : Guard) (d : Decision)
      → probed crates b exists_many query_solutions agent (container c) w ≡ ok g
      → authorize g write ≡ ok d
      → g.chain ≡ c.as_resource ∷ above c.as_resource
  container_chain c g d probe granted =
      unfold chain_of subject_of in chain_known (container c) g d probe granted

  authorized-Meets :
      (target : Target) (g : Guard) (d : Decision)
      → probed crates b exists_many query_solutions agent target w ≡ ok g
      → authorize g write ≡ ok d
      → Meets target (delete_authorized crates b exists_many query_solutions g target w)
  unfolding delete_authorized
  authorized-Meets (aux a) g d probe granted = aux_deleted a g d probe granted
  authorized-Meets (resource r) g d probe granted = elim (Result-cases (authorize_parent g write)) [
    | inr (e, he) ↦ rw (he, delete_authorized) (refuses (resource r) g d probe granted e)
    | inl (pd, hp) ↦ elim (Result-cases (present_auxes g r all_kinds)) [
      | inr (e, he) ↦ rw (hp, he, delete_authorized) (refuses (resource r) g d probe granted e)
      | inl (named, hn) ↦
          rw (hp, hn, delete_authorized)
            (subject_deleted (resource r) g d probe granted r named
              (allowed-MayCascade g r (resource_chain r g d probe granted) hp hn)
              (λ existed w' gone. gone))
    ]
  ]
  authorized-Meets (container c) g d probe granted =
      elim (Result-cases (authorize_parent g write)) [
        | inr (e, he) ↦ rw (he, delete_authorized) (refuses (container c) g d probe granted e)
        | inl (pd, hp) ↦ elim (Result-cases (present_auxes g c.as_resource all_kinds)) [
          | inr (e, he) ↦ rw (hp, he, delete_authorized) (refuses (container c) g d probe granted e)
          | inl (named, hn) ↦ elim (Option-cases (parent c.as_resource)) [
            | inl hr ↦ rw (hp, hn, hr, delete_authorized) (refl, refl)
            | inr (p, hr) ↦
                let cascade =
                  allowed-MayCascade g c.as_resource (container_chain c g d probe granted) hp hn in
                rw (hp, hn, hr, delete_authorized)
                  (if_empty c g d probe granted named cascade p hr (container_is_empty b c w).0
                    (container_is_empty b c w).1
                    (container_is_empty-HasNoMember b holds object laws w c).answers
                    (container_is_empty-HasNoMember b holds object laws w c).still)
          ]
        ]
      ]

  -- What the response of `DELETE` says. Where the handler returned before its event, it is no
  -- success and nothing changed. Otherwise, by what the probe of the target's chain read, the agent
  -- is granted writing on the target; for a document or a container, the agent holds Write by the
  -- nearest ACL of the chain above it, if there is a chain above it, and Control by the nearest ACL
  -- of its own if an auxiliary of it is there, and the event names exactly the auxiliaries that are
  -- there; a container is not the root and had no member; and on 204 the target was present and is
  -- gone, with all that goes with it, on 404 it was not present, and any other response is 500.
  pub delete_write-Answered :
      (target : Target) {res : Response} {named : Option (List AuxUrl)} {w' : W}
      → delete_write crates b exists_many query_solutions agent target w ≡ (res, named, w')
      → Answered target res named w'
  unfolding delete_write
  delete_write-Answered target h =
      subst (Meets target) h
        (elim (Result-cases (probed crates b exists_many query_solutions agent target w)) [
          | inr (e, he) ↦ rw (he, delete_write) (refused_not_success e target, refl)
          | inl (g, hg) ↦ elim (Result-cases (authorize g write)) [
            | inr (e, he) ↦ rw (hg, he, delete_write) (refused_not_success e target, refl)
            | inl (d, hd) ↦ rw (hg, hd, delete_write) (authorized-Meets target g d hg hd)
          ]
        ])
