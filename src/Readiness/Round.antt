-- ===== src/Readiness/Round.antt =====
-- logs.go: `observeReadinessRound`, one round of the monitor. What the followers hand over is a
-- parameter of the loop in Readiness/Wait.
use docker_vrising.Prelude.{
  ℕ, Bool, not, List, [], ◌∷◌, ◌++◌, ◌==◌, any, nat_eq, Bytes, codes, Option, none, some,
  if◌then◌else◌,
}
use docker_vrising.Prelude.Result.{Result, ok, err, ◌>>=◌, ◌>>◌, guard}
use docker_vrising.Readiness.{
  ExpectedReadiness, Evidence, observe, reset, complete, fatal_readiness_line,
}

-- `logBatch`
pub record LogBatch : Type 0 where
  pub round : ℕ
  pub source : Bytes
  pub lines : List Bytes
  pub more : Bool
  pub pending : Bool
  pub reset : Bool
  pub activity : Bool
  pub error : Option Bytes

-- A fatal line stands in its error whole; the code shortens it there.
pub data ReadinessError : Type 0 where
  cancelled unexpected_round server_log_required bepinex_log_required : ReadinessError
  kindred_required satisvampory_required : ReadinessError
  no_follower follow write_failed fatal_output : Bytes → ReadinessError

-- The evidence, and what was written to the output so far.
pub record Seen : Type 0 where
  pub evidence : Evidence
  pub written : List Bytes

-- The results of a round.
pub record Round : Type 0 where
  pub ready : Bool
  pub more : Bool
  pub pending : Bool
  pub activity : Bool

abbrev pub guard_follow : LogBatch → Result ReadinessError (Unit {0})
guard_follow b = elim b.error [ none ↦ ok tt | some e ↦ err (follow b.source) ]

abbrev pub reset_batch : LogBatch → Evidence → Evidence
reset_batch b e = if b.reset then reset b.source e else e

abbrev pub first_fatal : List Bytes → Option Bytes
first_fatal [] = none
first_fatal (line ∷ lines) =
    let later = first_fatal lines in if fatal_readiness_line line then some line else later

-- The loop over the lines of the batches that looks for a fatal one.
unfoldable pub check_fatal : List LogBatch → Result ReadinessError (Unit {0})
check_fatal [] = ok tt
check_fatal (b ∷ batches) = elim (first_fatal b.lines) [
  | none ↦ check_fatal batches
  | some line ↦ err (fatal_output line)
]

unfoldable pub observe_lines : ExpectedReadiness → List Bytes → Evidence → Evidence
observe_lines expected [] e = e
observe_lines expected (line ∷ lines) e = observe_lines expected lines (observe expected line e)

unfoldable pub observe_batches : ExpectedReadiness → List LogBatch → Evidence → Evidence
unfolding observe_lines
observe_batches expected [] e = e
observe_batches expected (b ∷ batches) e =
    observe_batches expected batches (observe_lines expected b.lines e)

module _ (write_fails : List Bytes → Bytes → Bool) where
  unfoldable pub write_lines : Bytes → List Bytes → List Bytes → Result ReadinessError (List Bytes)
  write_lines source [] written = ok written
  write_lines source (line ∷ lines) written = do
    let text = codes "[" ++ (source ++ (codes "] " ++ (line ++ (10 ∷ []))))
    guard (not (write_fails written text)) (write_failed source)
    write_lines source lines (written ++ (text ∷ []))

  -- The first loop over the batches.
  unfoldable pub take_batches : List LogBatch → Seen → Result ReadinessError Seen
  take_batches [] s = ok s
  take_batches (b ∷ batches) s = do
    guard_follow b
    written ← write_lines b.source b.lines s.written
    take_batches batches (record { evidence = reset_batch b s.evidence; written = written })

  -- `observeReadinessRound`, of the batches that the followers sent.
  unfoldable pub observe_readiness_round :
      ExpectedReadiness → Bool → ℕ → List LogBatch → Seen → Result ReadinessError (Round × Seen)
  unfolding take_batches check_fatal observe_batches
  observe_readiness_round expected check_startup round batches s = do
    guard (not (any (λ (b : LogBatch). not (b.round == round)) batches)) unexpected_round
    taken ← take_batches batches s
    if check_startup then check_fatal batches else ok tt
    let evidence = observe_batches expected batches taken.evidence
    ok (
      record {
        ready = complete evidence expected.require_mods;
        more = any (λ (b : LogBatch). b.more) batches;
        pending = any (λ (b : LogBatch). b.pending) batches;
        activity = any (λ (b : LogBatch). b.activity) batches;
      },
      record { evidence = evidence; written = taken.written },
    )
