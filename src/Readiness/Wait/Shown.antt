-- ===== src/Readiness/Wait/Shown.antt =====
-- What the logs have shown: an account of the evidence by the whole history of the rounds.
use docker_vrising.Prelude.{
  Bool, false, ◌&&◌, ◌||◌, not, ◌≡◌, refl, ◌∙◌, List, [], ◌∷◌, ◌==◌, any, nat_eq, bytes_eq, Bytes,
  codes, arith, ap, All, Option-cases, inl, inr, none,
}
use docker_vrising.Prelude.Result.{ok, ◌>>=◌, >>=-eq-ok}
use docker_vrising.Readiness.{
  ExpectedReadiness, Evidence, observe, reset, fatal_readiness_line, shows_startup,
  shows_chainloader, shows_vcf, shows_kindred, shows_satisvampory,
}
use docker_vrising.Readiness.Round.{
  LogBatch, Seen, reset_batch, guard_follow, write_lines, take_batches, first_fatal, check_fatal,
  observe_lines, observe_batches,
}

-- The batches of the rounds, the latest round first.
abbrev pub History : Type 0
History = List (List LogBatch)

abbrev pub resets_server : LogBatch → Bool
resets_server b = b.reset && b.source == codes "server"

abbrev pub resets_mods : LogBatch → Bool
resets_mods b = b.reset && not (b.source == codes "server")

abbrev pub has_line : (Bytes → Bool) → List LogBatch → Bool
has_line test batches = any (λ (b : LogBatch). any test b.lines) batches

-- A line that passes the test came in the latest round of a reset of its log, or after it.
abbrev pub shown : (Bytes → Bool) → (LogBatch → Bool) → History → Bool
shown test resets [] = false
shown test resets (batches ∷ older) =
    has_line test batches || (not (any resets batches) && shown test resets older)

abbrev pub evidence_of : ExpectedReadiness → History → Evidence
evidence_of expected h = record {
  server_startup = shown shows_startup resets_server h;
  chainloader = shown shows_chainloader resets_mods h;
  vcf = shown shows_vcf resets_mods h;
  kindred = shown (shows_kindred expected) resets_mods h;
  satisvampory = shown (shows_satisvampory expected) resets_mods h;
}

record AreSame (e f : Evidence) : Type 0 where
  server_startup : e.server_startup ≡ f.server_startup
  chainloader : e.chainloader ≡ f.chainloader
  vcf : e.vcf ≡ f.vcf
  kindred : e.kindred ≡ f.kindred
  satisvampory : e.satisvampory ≡ f.satisvampory

AreSame-eq : {e f : Evidence} → AreSame e f → e ≡ f
AreSame-eq s = λ i. record {
  server_startup = s.server_startup i;
  chainloader = s.chainloader i;
  vcf = s.vcf i;
  kindred = s.kindred i;
  satisvampory = s.satisvampory i;
}

-- The evidence after the resets of the batches, and after their lines.
abbrev without : List LogBatch → Evidence → Evidence
without batches e = record {
  server_startup = not (any resets_server batches) && e.server_startup;
  chainloader = not (any resets_mods batches) && e.chainloader;
  vcf = not (any resets_mods batches) && e.vcf;
  kindred = not (any resets_mods batches) && e.kindred;
  satisvampory = not (any resets_mods batches) && e.satisvampory;
}

abbrev also : ExpectedReadiness → ((Bytes → Bool) → Bool) → Evidence → Evidence
also expected found e = record {
  server_startup = found shows_startup || e.server_startup;
  chainloader = found shows_chainloader || e.chainloader;
  vcf = found shows_vcf || e.vcf;
  kindred = found (shows_kindred expected) || e.kindred;
  satisvampory = found (shows_satisvampory expected) || e.satisvampory;
}

reset_batch-without :
    (b : LogBatch) (batches : List LogBatch) (e : Evidence)
    → without batches (reset_batch b e) ≡ without (b ∷ batches) e
unfolding reset
reset_batch-without b batches e = AreSame-eq (record {
  server_startup = ground arith;
  chainloader = ground arith;
  vcf = ground arith;
  kindred = ground arith;
  satisvampory = ground arith;
})

take_batches-without :
    (write_fails : List Bytes → Bytes → Bool) (batches : List LogBatch) (s : Seen) {t : Seen}
    → take_batches write_fails batches s ≡ ok t
    → t.evidence ≡ without batches s.evidence
unfolding take_batches
take_batches-without write_fails [] s h = ground arith
take_batches-without write_fails (b ∷ batches) s h =
    let (u, followed, rest) =
      >>=-eq-ok (guard_follow b)
        (λ u. write_lines write_fails b.source b.lines s.written >>= (λ written.
          take_batches write_fails batches
            (record { evidence = reset_batch b s.evidence; written = written })))
        h in
    let (written, wrote, last) =
      >>=-eq-ok (write_lines write_fails b.source b.lines s.written)
        (λ written.
          take_batches write_fails batches
            (record { evidence = reset_batch b s.evidence; written = written }))
        rest in
    take_batches-without write_fails batches
      (record { evidence = reset_batch b s.evidence; written = written }) last
    ∙ reset_batch-without b batches s.evidence

observe_lines-also :
    (expected : ExpectedReadiness) (lines : List Bytes) (e : Evidence)
    → observe_lines expected lines e ≡ also expected (λ test. any test lines) e
unfolding observe_lines observe
observe_lines-also expected [] e = refl
observe_lines-also expected (line ∷ lines) e =
    observe_lines-also expected lines (observe expected line e)
    ∙ AreSame-eq (record {
      server_startup = ground arith;
      chainloader = ground arith;
      vcf = ground arith;
      kindred = ground arith;
      satisvampory = ground arith;
    })

observe_batches-also :
    (expected : ExpectedReadiness) (batches : List LogBatch) (e : Evidence)
    → observe_batches expected batches e ≡ also expected (λ test. has_line test batches) e
unfolding observe_batches
observe_batches-also expected [] e = refl
observe_batches-also expected (b ∷ batches) e =
    observe_batches-also expected batches (observe_lines expected b.lines e)
    ∙ ap (also expected (λ test. has_line test batches)) (observe_lines-also expected b.lines e)
    ∙ AreSame-eq (record {
      server_startup = ground arith;
      chainloader = ground arith;
      vcf = ground arith;
      kindred = ground arith;
      satisvampory = ground arith;
    })

-- The evidence after a round is that of the history with the round.
pub round-evidence :
    (expected : ExpectedReadiness) (write_fails : List Bytes → Bytes → Bool)
    (batches : List LogBatch) (older : History) (s : Seen) {t : Seen}
    → s.evidence ≡ evidence_of expected older
    → take_batches write_fails batches s ≡ ok t
    → observe_batches expected batches t.evidence ≡ evidence_of expected (batches ∷ older)
round-evidence expected write_fails batches older s {t = t} e h =
    observe_batches-also expected batches t.evidence
    ∙ ap (also expected (λ test. has_line test batches))
        (take_batches-without write_fails batches s h ∙ ap (without batches) e)

abbrev pub IsCalm : List LogBatch → Type 0
IsCalm batches = All (λ (b : LogBatch). any fatal_readiness_line b.lines ≡ false) batches

first_fatal-none :
    (lines : List Bytes) → first_fatal lines ≡ none → any fatal_readiness_line lines ≡ false
first_fatal-none [] h = refl
first_fatal-none (line ∷ lines) h = ground (arith, first_fatal-none lines)

pub check_fatal-IsCalm : (batches : List LogBatch) → check_fatal batches ≡ ok tt → IsCalm batches
unfolding check_fatal
check_fatal-IsCalm [] h = tt
check_fatal-IsCalm (b ∷ batches) h = elim (Option-cases (first_fatal b.lines)) [
  | inl e ↦ (first_fatal-none b.lines e, check_fatal-IsCalm batches (ground arith))
  | inr (line, e) ↦ ground arith
]
