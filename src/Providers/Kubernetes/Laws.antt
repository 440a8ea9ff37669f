-- ===== src/Providers/Kubernetes/Laws.antt =====
-- What the adapter relies on of the cluster's RBAC API, while nobody else works on its bindings.
use jitsudo.Prelude.{◌≡◌, ◌≢◌, true, Option, none, some, String}
use jitsudo.Providers.Cloud.{Fault, answered, refused}
use jitsudo.Providers.Kubernetes.{Place, Binding, ClusterApi}

-- `stored` is the binding of a place and a name.
pub record IsCluster {S : Type 0} (cluster : ClusterApi S)
    (stored : Place × String → S → Option Binding) : Type 0 where
  pub get :
      (at : Place) (name : String) (s : S) (b : Binding)
      → (cluster.get_binding at name s).0 ≡ answered b
      → stored (at, name) s ≡ some b
  pub get_absent :
      (at : Place) (name : String) (s : S) (e : Fault)
      → (cluster.get_binding at name s).0 ≡ refused e
      → cluster.is_not_found e ≡ true
      → stored (at, name) s ≡ none
  pub get_keeps :
      (at : Place) (name : String) (k : Place × String) (s : S)
      → stored k (cluster.get_binding at name s).1 ≡ stored k s
  pub create :
      (at : Place) (b made : Binding) (s : S)
      → (cluster.create_binding at b s).0 ≡ answered made
      → stored (at, b.name) (cluster.create_binding at b s).1 ≡ some b
  pub create_else :
      (at : Place) (b : Binding) (k : Place × String) (s : S)
      → k ≢ (at, b.name)
      → stored k (cluster.create_binding at b s).1 ≡ stored k s
  pub create_refused :
      (at : Place) (b : Binding) (k : Place × String) (e : Fault) (s : S)
      → (cluster.create_binding at b s).0 ≡ refused e
      → stored k (cluster.create_binding at b s).1 ≡ stored k s
  pub delete :
      (at : Place) (name : String) (s : S)
      → (cluster.delete_binding at name s).0 ≡ answered tt
      → stored (at, name) (cluster.delete_binding at name s).1 ≡ none
  pub delete_absent :
      (at : Place) (name : String) (s : S) (e : Fault)
      → (cluster.delete_binding at name s).0 ≡ refused e
      → cluster.is_not_found e ≡ true
      → stored (at, name) s ≡ none
  pub delete_else :
      (at : Place) (name : String) (k : Place × String) (s : S)
      → k ≢ (at, name)
      → stored k (cluster.delete_binding at name s).1 ≡ stored k s
  pub delete_refused :
      (at : Place) (name : String) (k : Place × String) (e : Fault) (s : S)
      → (cluster.delete_binding at name s).0 ≡ refused e
      → stored k (cluster.delete_binding at name s).1 ≡ stored k s
