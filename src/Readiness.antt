-- ===== src/Readiness.antt =====
-- logs.go: what the readiness monitor makes of the lines that the followers of the two logs read.
-- The lines are what a follower hands over in each round; letters are folded as ASCII letters.
pub mod Round
pub mod Wait
pub mod Lines
mod Tests
use docker_vrising.Prelude.{
  ℕ, zero, suc, ◌+◌, Bool, true, false, ◌&&◌, ◌||◌, not, List, [], ◌∷◌, ◌++◌, ◌==◌, any, leb,
  nat_eq, bytes_eq, Bytes, codes, map, Option, none, some, length, if◌then◌else◌,
}
use docker_vrising.Prelude.Result.{Result, ok, err, ◌>>=◌, ◌>>◌, guard}
use docker_vrising.Config.{has_prefix, semantic_version}

pub record ExpectedReadiness : Type 0 where
  pub kindred_version : Bytes
  pub satisvampory_version : Bytes
  pub require_mods : Bool

-- `readinessEvidence`
pub record Evidence : Type 0 where
  pub server_startup : Bool
  pub chainloader : Bool
  pub vcf : Bool
  pub kindred : Bool
  pub satisvampory : Bool

-- `strings.Contains`
unfoldable pub contains_text : Bytes → Bytes → Bool
contains_text [] text = has_prefix [] text
contains_text (c ∷ s) text = has_prefix (c ∷ s) text || contains_text s text

-- `strings.ToLower`
abbrev lower_letter : ℕ → ℕ
lower_letter c = if leb 65 c && leb c 90 then c + 32 else c

abbrev pub to_lower : Bytes → Bytes
to_lower line = map lower_letter line

-- The tests of `observe`.
unfoldable pub shows_startup : Bytes → Bool
unfolding contains_text
shows_startup line = contains_text line (codes "[Server] Startup Completed")

unfoldable pub shows_chainloader : Bytes → Bool
unfolding contains_text
shows_chainloader line =
    let lower = to_lower line in
    contains_text lower (codes "chainloader")
    && (contains_text lower (codes "startup complete")
        || contains_text lower (codes "startup finished"))

unfoldable pub shows_vcf : Bytes → Bool
unfolding contains_text
shows_vcf line =
    contains_text (to_lower line) (codes "vampirecommandframework")
    && contains_text line (codes "VCF Loaded: ")

unfoldable pub shows_kindred : ExpectedReadiness → Bytes → Bool
unfolding contains_text
shows_kindred expected line =
    not (expected.kindred_version == [])
    && contains_text line (
        codes "Plugin aa.odjit.KindredCommands version "
        ++ (expected.kindred_version ++ codes " is loaded!"))

unfoldable pub shows_satisvampory : ExpectedReadiness → Bytes → Bool
unfolding contains_text
shows_satisvampory expected line =
    not (expected.satisvampory_version == [])
    && contains_text line
        (codes "Satisvampory " ++ (expected.satisvampory_version ++ codes " (Satisvampory) ready."))

unfoldable pub observe : ExpectedReadiness → Bytes → Evidence → Evidence
observe expected line e = record {
  server_startup = if shows_startup line then true else e.server_startup;
  chainloader = if shows_chainloader line then true else e.chainloader;
  vcf = if shows_vcf line then true else e.vcf;
  kindred = if shows_kindred expected line then true else e.kindred;
  satisvampory = if shows_satisvampory expected line then true else e.satisvampory;
}

unfoldable pub reset : Bytes → Evidence → Evidence
reset source e = if source == codes "server" then record e { server_startup = false } else record {
  server_startup = e.server_startup;
  chainloader = false;
  vcf = false;
  kindred = false;
  satisvampory = false;
}

unfoldable pub complete : Evidence → Bool → Bool
complete e require_mods =
    if not e.server_startup
    then false
    else not require_mods || (e.chainloader && (e.vcf && (e.kindred && e.satisvampory)))

abbrev fatal_signatures : List Bytes
fatal_signatures =
    codes "error loading ["
    ∷ codes "failed to load plugin"
    ∷ codes "failed loading plugin"
    ∷ codes "could not load plugin"
    ∷ codes "failed to initialize bepinex"
    ∷ codes "failed to generate il2cpp interop assemblies"
    ∷ codes "bepinex initialization failed"
    ∷ codes "failed to load coreclr"
    ∷ codes "failed to start coreclr"
    ∷ codes "coreclr initialization failed"
    ∷ codes "coreclr_initialize failed"
    ∷ codes "unable to execute doorstop target assembly"
    ∷ codes "failed to load doorstop"
    ∷ []

-- `fatalReadinessLine`
unfoldable pub fatal_readiness_line : Bytes → Bool
unfolding contains_text
fatal_readiness_line line =
    let has = contains_text (to_lower line) in
    any has fatal_signatures
    || ((has (codes "fatal")
          && (has (codes "bepinex")
              || (has (codes "doorstop") || (has (codes "coreclr") || has (codes "plugin")))))
        || (has (codes "doorstop")
            && (has (codes " error") || (has (codes ":error") || has (codes " failed")))))
