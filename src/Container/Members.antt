-- ===== src/Container/Members.antt =====
-- src/container.rs: the update that takes a member out of a container, and whether a container is
-- empty.
use quadpod.Prelude.{Bool, [], ◌∷◌, is_empty, if◌then◌else◌, Text, Result, ok, err}
use quadpod.Dataset.Ground.{GroundTerm}
use quadpod.Space.{ContainerUrl, container_iri}
use quadpod.Store.{Fact, Operation, delete_data, objects, Backend, ◌>>=◌, pure, wrap_read}
use quadpod.Resource.{ResourceError, invalid_iri, store}
use quadpod.Resource.Graphs.{Task}
use quadpod.Container.{ldp_contains}

abbrev pub member_fact : ContainerUrl → Text → Fact
member_fact parent child_iri = record {
  subject = container_iri parent;
  predicate = ldp_contains;
  object = GroundTerm.named_node child_iri;
}

unfoldable pub containment_removal :
    (Text → Bool) → ContainerUrl → Text → Result ResourceError Operation
containment_removal valid_iri parent child_iri =
    if valid_iri child_iri
    then ok (delete_data (container_iri parent) (member_fact parent child_iri ∷ []))
    else err invalid_iri

unfoldable pub container_is_empty : {W : Type 0} (b : Backend W) → ContainerUrl → Task b Bool
container_is_empty b c = do
  ts ← wrap_read store (b.construct (container_iri c) (objects (container_iri c) ldp_contains))
  pure (is_empty ts)
