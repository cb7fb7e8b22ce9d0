-- ===== src/Space/Tests.antt =====
-- Runs of the definitions of src/space.rs, and its theorems at concrete inputs.
use quadpod.Prelude.{
  ◌≡◌, refl, Bool, true, not, some, [], ◌∷◌, ◌++◌, Text, codes, ok, err, split, contains,
  starts_with, ends_with, strip_prefix, strip_suffix, through_last, list_beq, map,
}
use quadpod.Space.{
  not_absolute, no_trailing_slash, reserved, not_rooted, not_normalized, acl, ResourceUrl, AuxUrl,
  Target, resource, container, aux, StorageSpace, aux_of, base_of, suffix, kind_name, split_suffix,
  as_container, segment_remainder, reserved_segment, is_normalization_stable, segments_stable, mint,
  resolve, resolve_aux, resolve_data, new_space, parent, ancestors, slash_counterpart, graph_iri,
}
use quadpod.Space.Identity.{graph_iri-resolve, resolve_injective}
use quadpod.Space.Auxiliary.{data_url, resolve-aux_path, resolve-subject}
use quadpod.Space.Stable.{aux_path}
use quadpod.Space.Root.{EndsAtRoot, ancestors-EndsAtRoot}

-- What the definitions call, for runs.
space_runs : Unit {0}
unfolding resolve resolve_aux resolve_data new_space mint aux_of base_of suffix kind_name
    split_suffix as_container segment_remainder reserved_segment is_normalization_stable
    segments_stable slash_counterpart parent ancestors graph_iri split contains starts_with
    ends_with strip_prefix strip_suffix through_last list_beq
space_runs = tt

-- An IRI check that forbids spaces.
abbrev no_space : Text → Bool
no_space iri = not (contains b' ' iri)

abbrev base : Text
base = codes "https://pod/"

abbrev pod : StorageSpace
pod = record { base = base }

abbrev stem : Text
stem = codes "https://pod"

abbrev url : Text → ResourceUrl
url p = record { path = p; iri = stem ++ p }

new_space_tests :
    (new_space no_space base ≡ ok pod)
    × (new_space no_space (codes "https://pod") ≡ err no_trailing_slash)
    × (new_space no_space (codes "pod/") ≡ err not_absolute)
unfolding space_runs
new_space_tests = (refl, refl, refl)

resolve_tests :
    (resolve no_space pod (codes "/box/a") ≡ ok (resource (url (codes "/box/a"))))
    × (resolve no_space pod (codes "/box/")
        ≡ ok (container (record { as_resource = url (codes "/box/") })))
    × (resolve no_space pod (codes "/.aux/box/.acl") ≡ ok (aux (aux_of (url (codes "/box/")) acl)))
    × (resolve no_space pod (codes "/.aux/.aux/foo.acl.acl") ≡ err reserved)
    × (resolve no_space pod (codes "/.aux/..acl") ≡ err not_normalized)
    × (resolve no_space pod (codes "/box//") ≡ err not_normalized)
    × (resolve no_space pod (codes "box") ≡ err not_rooted)
    × (resolve no_space pod (codes "/.auxiliary") ≡ ok (resource (url (codes "/.auxiliary"))))
unfolding space_runs
resolve_tests = (refl, refl, refl, refl, refl, refl, refl, refl)

graph_iri-resolve_example : graph_iri (resource (url (codes "/box/a"))) ≡ stem ++ codes "/box/a"
graph_iri-resolve_example =
    graph_iri-resolve no_space pod stem (codes "/box/a") refl resolve_tests.0

resolve_injective_example : ◌≡◌ {A = Text} (codes "/box/a") (codes "/box/a")
resolve_injective_example =
    resolve_injective no_space base (codes "/box/a") (codes "/box/a") new_space_tests.0
      resolve_tests.0 resolve_tests.0 refl

box_acl_valid : no_space (aux_of (url (codes "/box/")) acl).iri ≡ true
unfolding space_runs
box_acl_valid = refl

resolve-aux_path_example :
    resolve no_space pod (aux_path (codes "/box/") acl)
    ≡ ok (aux (aux_of (url (codes "/box/")) acl))
resolve-aux_path_example =
    resolve-aux_path no_space pod (codes "/box/") acl resolve_tests.1 refl box_acl_valid

abbrev box_acl : AuxUrl
box_acl = record { kind = acl; subject = url (codes "/box/"); iri = stem ++ codes "/.aux/box/.acl" }

resolve-box_acl : resolve no_space pod (codes "/.aux/box/.acl") ≡ ok (aux box_acl)
unfolding space_runs
resolve-box_acl = refl

resolve-subject_example :
    (codes "/.aux/box/.acl" ≡ aux_path (codes "/box/") acl)
    × (t : Target) × (resolve no_space pod (codes "/box/") ≡ ok t)
    × (data_url t ≡ some (url (codes "/box/")))
resolve-subject_example = resolve-subject no_space pod (codes "/.aux/box/.acl") resolve-box_acl

counterpart_test : slash_counterpart (url (codes "/box/")) ≡ some (url (codes "/box"))
unfolding space_runs
counterpart_test = refl

box_stable : is_normalization_stable (codes "/box/") ≡ true
unfolding space_runs
box_stable = refl

chain_test :
    map (λ c. c.as_resource.path) (ancestors (url (codes "/a/b/c")))
    ≡ codes "/a/b/" ∷ codes "/a/" ∷ codes "/" ∷ []
unfolding space_runs
chain_test = refl

a_rooted : starts_with (codes "/") (codes "/a/b/c") ≡ true
unfolding space_runs
a_rooted = refl

ancestors-EndsAtRoot_example : EndsAtRoot (url (codes "/a/b/c"))
ancestors-EndsAtRoot_example = ancestors-EndsAtRoot (url (codes "/a/b/c")) a_rooted (λ e. cc e)
