-- ===== src/Container/Tests.antt =====
-- Runs of the definitions of src/container.rs, and its theorem at concrete inputs.
use quadpod.Prelude.{
  ◌≡◌, refl, Bool, true, false, [], split, split_once, trim, drop_white, none, some, ◌++◌, Text,
  codes, list_beq, strip_suffix, strip_prefix, through_last,
}
use quadpod.Space.{ResourceUrl, ContainerUrl, parent, base_of}
use quadpod.Container.{
  is_slug_char, child_name, body_sets_containment, is_server_managed, without_server_managed,
}
use quadpod.Dataset.{eq_ignore_ascii_case, to_ascii_lowercase}
use quadpod.Container.Link.{
  type_link_requests_container, value_requests_container, is_type_relation, trim_quotes,
  drop_quotes, split_whitespace, spaced,
}
use quadpod.Container.Children.{IsSegment, parent-child_name}

-- What the definitions call, for runs.
container_runs : Unit {0}
unfolding is_slug_char child_name body_sets_containment is_server_managed without_server_managed
    list_beq strip_suffix strip_prefix through_last parent base_of
container_runs = tt

link_runs : Unit {0}
unfolding type_link_requests_container value_requests_container is_type_relation trim_quotes
    drop_quotes split_whitespace spaced split split_once trim drop_white strip_prefix list_beq
    eq_ignore_ascii_case to_ascii_lowercase
link_runs = tt

abbrev asks : Text → Bool
asks link = type_link_requests_container link

-- The headers of the tests of src/container.rs.
link_tests :
    (asks (codes "<http://www.w3.org/ns/ldp#BasicContainer>; rel=\"type\"") ≡ true)
    × (asks (
          codes
            "<https://example.org/a>; rel=\"describedby\", <http://www.w3.org/ns/ldp#BasicContainer>; rel=\"foo type\"")
        ≡ true)
    × (asks [] ≡ false)
    × (asks (codes "<http://www.w3.org/ns/ldp#BasicContainer>; rel=\"describedby\"") ≡ false)
    × (asks (
          codes
            "<https://example.org/x>; rel=\"type\"; title=\"http://www.w3.org/ns/ldp#Container\"")
        ≡ false)
unfolding link_runs
link_tests = (refl, refl, refl, refl, refl)

child_name_tests :
    (child_name (some (codes "my file.txt")) (codes "u1") ≡ codes "myfile.txt")
    × (child_name (some (codes "..")) (codes "u1") ≡ codes "u1")
    × (child_name none (codes "u1") ≡ codes "u1")
unfolding container_runs
child_name_tests = (refl, refl, refl)

abbrev stem : Text
stem = codes "https://pod"

abbrev url : Text → ResourceUrl
url p = record { path = p; iri = stem ++ p }

abbrev box : ContainerUrl
box = record { as_resource = url (codes "/box/") }

fresh-IsSegment : IsSegment (codes "u1")
unfolding container_runs
fresh-IsSegment = record { chars = refl; not_empty = refl }

parent-child_name_example : parent (url (codes "/box/notes-u1/")) ≡ some box
unfolding container_runs
parent-child_name_example =
    parent-child_name stem (codes "/box") box refl refl (some (codes "no/tes")) (codes "u1")
      (codes "u1") true true (url (codes "/box/notes-u1/")) fresh-IsSegment fresh-IsSegment refl
      refl
