-- ===== src/Graph/Samples.antt =====
-- Package references and graphs for the tests.
use docker_vrising.Prelude.{ℕ, List, [], ◌∷◌, ◌==◌, codes, if◌then◌else◌}
use docker_vrising.State.{PackageRef, package_ref_eq}
use docker_vrising.Graph.Roots.{RootSelection}
use docker_vrising.Graph.Canonical.{Dependencies}

abbrev pub commands : PackageRef
commands = record {
  namespace = codes "odjit";
  name = codes "KindredCommands";
  version = codes "1.0.0";
}

abbrev pub factory : PackageRef
factory = record {
  namespace = codes "Team_GreenEye";
  name = codes "Satisvampory";
  version = codes "0.2.0";
}

abbrev pub framework : PackageRef
framework = record { namespace = codes "deca"; name = codes "Core-Kit"; version = codes "3.0.1" }

abbrev pub graph : Dependencies
graph = (commands, framework ∷ []) ∷ (framework, []) ∷ (factory, framework ∷ []) ∷ []

abbrev pub graph_order : List PackageRef
graph_order = framework ∷ commands ∷ factory ∷ []

abbrev pub rank : PackageRef → ℕ
rank r = if r == framework then 0 else 1

abbrev pub two_selections : List RootSelection
two_selections =
    record { namespace = factory.namespace; name = factory.name; version = codes "0.2.0" }
    ∷ record { namespace = commands.namespace; name = commands.name; version = codes "latest" }
    ∷ []
