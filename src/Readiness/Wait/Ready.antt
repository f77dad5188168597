-- ===== src/Readiness/Wait/Ready.antt =====
-- When `watch` declares the server ready.
use docker_vrising.Prelude.{
  ℕ, zero, suc, ◌+◌, ◌≤◌, Bool, true, false, ◌&&◌, not, ◌≡◌, ◌⊎◌, refl, ◌∙◌, sym, ap, List, [], ◌∷◌,
  ◌==◌, any, nat_eq, bytes_eq, Bytes, arith, All, inl, inr, Option, none, some, if◌then◌else◌,
}
use docker_vrising.Prelude.Result.{Result, ok, err, ◌>>=◌, ◌>>◌, >>=-eq-ok, guard-passed}
use docker_vrising.Readiness.{ExpectedReadiness, complete}
use docker_vrising.Readiness.Round.{
  LogBatch, ReadinessError, cancelled, unexpected_round, Seen, Round, take_batches, check_fatal,
  observe_batches, observe_readiness_round,
}
use docker_vrising.Readiness.Wait.{
  Watch, Outcome, is_ready, failed, watching, count_quiet, go_on, after_round, observe_acknowledged,
  watch_round, watch_rounds,
}
use docker_vrising.Readiness.Wait.Shown.{
  History, evidence_of, round-evidence, IsCalm, check_fatal-IsCalm,
}

abbrev is_quiet : List LogBatch → Bool
is_quiet batches =
    not (any (λ (b : LogBatch). b.more) batches)
    && (not (any (λ (b : LogBatch). b.pending) batches)
        && not (any (λ (b : LogBatch). b.activity) batches))

-- How many rounds in a row, up to the latest, were quiet with complete evidence.
unfoldable pub quiet_run : ExpectedReadiness → History → ℕ
quiet_run expected [] = 0
quiet_run expected (batches ∷ older) =
    let before = quiet_run expected older in
    if complete (evidence_of expected (batches ∷ older)) expected.require_mods && is_quiet batches
    then before + 1
    else 0

-- The monitor has called `onReady`, or returned without an error.
abbrev pub declares : Outcome → Bool
declares is_ready = true
declares (failed e) = false
declares (watching w) = w.announced

module _ (expected : ExpectedReadiness) (write_fails : List Bytes → Bytes → Bool)
    (acknowledged : ℕ → Option (List LogBatch)) where
  -- What the followers handed over in the rounds up to the given one.
  abbrev pub HasHistory : ℕ → History → Type 0
  HasHistory zero [] = Unit
  HasHistory zero (batches ∷ older) = ⊥
  HasHistory (suc n) [] = ⊥
  HasHistory (suc n) (batches ∷ older) = (acknowledged (suc n) ≡ some batches) × HasHistory n older

  -- Some round was the second quiet one with complete evidence, and no line up to it was fatal.
  pub record Declared (n : ℕ) : Type 0 where
    pub round : ℕ
    pub bound : round ≤ n
    pub history : History
    pub has : HasHistory round history
    pub quiet : quiet_run expected history ≡ 2
    pub calm : All IsCalm history

  record Unannounced (n : ℕ) (w : Watch) : Type 0 where
    history : History
    has : HasHistory n history
    evidence : w.seen.evidence ≡ evidence_of expected history
    quiet : w.quiet_rounds ≡ quiet_run expected history
    calm : All IsCalm history

  Declared-later : (n : ℕ) → Declared n → Declared (suc n)
  Declared-later n d = record {
    round = d.round;
    bound = omega (arith, d.bound);
    history = d.history;
    has = d.has;
    quiet = d.quiet;
    calm = d.calm;
  }

  -- What one round does to the evidence, the count and the lines looked at.
  record Observed (w : Watch) (older : History) (batches : List LogBatch) (r : Round) (s : Seen)
      : Type 0 where
    evidence : s.evidence ≡ evidence_of expected (batches ∷ older)
    ready : r.ready ≡ complete s.evidence expected.require_mods
    quiet : (not r.more && (not r.pending && not r.activity)) ≡ is_quiet batches
    calm : IsCalm batches

  round-Observed :
      (round : ℕ) (w : Watch) (older : History) (batches : List LogBatch) {r : Round} {s : Seen}
      → w.seen.evidence ≡ evidence_of expected older
      → observe_readiness_round write_fails expected true round batches w.seen ≡ ok (r, s)
      → Observed w older batches r s
  unfolding observe_readiness_round
  round-Observed round w older batches {r = r} {s = s} e h =
      let (rounds, taking) =
        guard-passed (not (any (λ (b : LogBatch). not (b.round == round)) batches)) unexpected_round
          (take_batches write_fails batches w.seen >>= from) h in
      let (taken, took, rest) = >>=-eq-ok (take_batches write_fails batches w.seen) from taking in
      let (u, checked, last) = >>=-eq-ok (check_fatal batches) (λ u. ok (results taken)) rest in
      let evidence = round-evidence expected write_fails batches older w.seen e took in
      let observed : s.evidence ≡ observe_batches expected batches taken.evidence = ground arith in
      record {
        evidence = observed ∙ evidence;
        ready = ground arith;
        quiet = ground arith;
        calm = check_fatal-IsCalm batches (ground arith);
      }
    where
      results : Seen → Round × Seen
      results taken =
          let evidence = observe_batches expected batches taken.evidence in
          (
            record {
              ready = complete evidence expected.require_mods;
              more = any (λ (b : LogBatch). b.more) batches;
              pending = any (λ (b : LogBatch). b.pending) batches;
              activity = any (λ (b : LogBatch). b.activity) batches;
            },
            record { evidence = evidence; written = taken.written },
          )

      from : Seen → Result ReadinessError (Round × Seen)
      from taken = check_fatal batches >> ok (results taken)

module _ (expected : ExpectedReadiness) (write_fails : List Bytes → Bytes → Bool)
    (acknowledged : ℕ → Option (List LogBatch)) (stopped : ℕ → Bool) (on_ready : Bool) where
  abbrev DeclaredBy : ℕ → Type 0
  DeclaredBy n = Declared expected write_fails acknowledged n

  -- What is known when the loop stands so after some rounds.
  abbrev Stands : ℕ → Outcome → Type 0
  Stands n is_ready = DeclaredBy n
  Stands n (failed e) = Unit
  Stands n (watching w) =
      ((w.announced ≡ true) × DeclaredBy n)
      ⊎ ((w.announced ≡ false) × Unannounced expected write_fails acknowledged n w)

  go_on-Stands :
      (n : ℕ) (round : ℕ) (r : Round) (w : Watch)
      → Stands n (watching w)
      → Stands n (go_on expected write_fails acknowledged stopped on_ready round r w)
  go_on-Stands n round r w h = from (not (r.more && not r.pending) && stopped round)
    where
      from : (b : Bool) → Stands n (if b then failed cancelled else watching w)
      from true = tt
      from false = h

  module _ (n : ℕ) (w : Watch) (r : Round) (s : Seen) where
    abbrev counted : ℕ
    counted = count_quiet expected write_fails acknowledged stopped on_ready r w.quiet_rounds

    after_round-Stands :
        ((w.announced ≡ true) → DeclaredBy n)
        → ((w.announced ≡ false) → (counted == 2) ≡ true → DeclaredBy n)
        → ((w.announced ≡ false)
            → Unannounced expected write_fails acknowledged n
                (record { seen = s; quiet_rounds = counted; announced = w.announced }))
        → Stands n (after_round expected write_fails acknowledged stopped on_ready n w (ok (r, s)))
    after_round-Stands was now later = from w.announced (counted == 2) on_ready refl refl
      where
        before : Watch
        before = record { seen = s; quiet_rounds = counted; announced = w.announced }

        after : Watch
        after = record { seen = s; quiet_rounds = counted; announced = true }

        from :
            (announced second b : Bool)
            → w.announced ≡ announced
            → (counted == 2) ≡ second
            → Stands n (
                if second && not announced
                then (if b
                    then go_on expected write_fails acknowledged stopped on_ready n r after
                    else is_ready)
                else go_on expected write_fails acknowledged stopped on_ready n r before)
        from true true b e k = go_on-Stands n n r before (inl (e, was e))
        from true false b e k = go_on-Stands n n r before (inl (e, was e))
        from false false b e k = go_on-Stands n n r before (inr (e, later e))
        from false true true e k = go_on-Stands n n r after (inl (refl, now e k))
        from false true false e k = now e k

  module _ (n : ℕ) (w : Watch) where
    -- A round after the declaration, and one before it.
    round_after-Stands :
        w.announced ≡ true
        → DeclaredBy n
        → (observed : Result ReadinessError (Round × Seen))
        → Stands
            (suc n)
            (after_round expected write_fails acknowledged stopped on_ready (suc n) w observed)
    round_after-Stands e d (err reason) = tt
    round_after-Stands e d (ok (r, s)) =
        after_round-Stands (suc n) w r s (λ e. Declared-later expected write_fails acknowledged n d)
          (λ k. absurd cc) (λ k. absurd cc)

    round_before-Stands :
        w.announced ≡ false
        → (u : Unannounced expected write_fails acknowledged n w) → (batches : List LogBatch)
        → acknowledged (suc n) ≡ some batches
        → (observed : Result ReadinessError (Round × Seen))
        → observe_readiness_round write_fails expected true (suc n) batches w.seen ≡ observed
        → Stands
            (suc n)
            (after_round expected write_fails acknowledged stopped on_ready (suc n) w observed)
    unfolding quiet_run
    round_before-Stands e u batches a (err reason) k = tt
    round_before-Stands e u batches a (ok (r, s)) k =
        after_round-Stands (suc n) w r s (λ t. ground arith)
          (λ f second. record {
            round = suc n;
            bound = omega arith;
            history = batches ∷ u.history;
            has = (a, u.has);
            quiet = sym counted-run ∙ ground arith;
            calm = (observed.calm, u.calm);
          })
          (λ f. record {
            history = batches ∷ u.history;
            has = (a, u.has);
            evidence = observed.evidence;
            quiet = counted-run;
            calm = (observed.calm, u.calm);
          })
      where
        observed : Observed expected write_fails acknowledged w u.history batches r s
        observed =
            round-Observed expected write_fails acknowledged (suc n) w u.history batches u.evidence
              k

        ready-same :
            r.ready ≡ complete (evidence_of expected (batches ∷ u.history)) expected.require_mods
        ready-same = observed.ready ∙ ap (λ v. complete v expected.require_mods) observed.evidence

        counted-run : counted (suc n) w r s ≡ quiet_run expected (batches ∷ u.history)
        counted-run = ground (arith, observed.quiet, ready-same, u.quiet)

    watch_round-Stands :
        Stands n (watching w)
        → Stands (suc n) (watch_round expected write_fails acknowledged stopped on_ready (suc n) w)
    unfolding watch_round
    watch_round-Stands (inl (e, d)) = round_after-Stands e d (
        observe_acknowledged expected write_fails acknowledged stopped on_ready (suc n) w
          (acknowledged (suc n)))
    watch_round-Stands (inr (e, u)) = from (acknowledged (suc n)) refl w.announced e
      where
        from :
            (a : Option (List LogBatch))
            → acknowledged (suc n) ≡ a
            → (announced : Bool) → announced ≡ false
            → Stands (suc n) (
                after_round expected write_fails acknowledged stopped on_ready (suc n) w (
                  observe_acknowledged expected write_fails acknowledged stopped on_ready
                    (suc n)
                    (record w { announced = announced })
                    a))
        from none k announced f = tt
        from (some batches) k true f = absurd cc
        from (some batches) k false f =
            round_before-Stands e u batches k
              (observe_readiness_round write_fails expected true (suc n) batches w.seen) refl

  watch_rounds-Stands :
      (n : ℕ) → Stands n (watch_rounds expected write_fails acknowledged stopped on_ready n)
  unfolding watch_rounds quiet_run
  watch_rounds-Stands zero =
      inr (refl, record { history = []; has = tt; evidence = refl; quiet = refl; calm = tt })
  watch_rounds-Stands (suc n) =
      from (watch_rounds expected write_fails acknowledged stopped on_ready n)
        (watch_rounds-Stands n)
    where
      from :
          (o : Outcome)
          → Stands n o
          → Stands (suc n) (elim o [
            | is_ready ↦ is_ready
            | failed e ↦ failed e
            | watching w ↦ watch_round expected write_fails acknowledged stopped on_ready (suc n) w
          ])
      from is_ready d = Declared-later expected write_fails acknowledged n d
      from (failed e) d = tt
      from (watching w) h = watch_round-Stands n w h

  -- When the monitor has declared the server ready, by a call of `onReady` or by its return, there
  -- was a round, no later than those watched, that was the second in a row with complete evidence,
  -- by the account of all that the logs have shown, and nothing more to read; and no line that came
  -- in the rounds up to it was fatal.
  pub watch_rounds-Declared :
      (n : ℕ)
      → declares (watch_rounds expected write_fails acknowledged stopped on_ready n) ≡ true
      → Declared expected write_fails acknowledged n
  watch_rounds-Declared n h =
      from (watch_rounds expected write_fails acknowledged stopped on_ready n) h
        (watch_rounds-Stands n)
    where
      from : (o : Outcome) → declares o ≡ true → Stands n o → DeclaredBy n
      from is_ready k d = d
      from (failed e) k d = absurd cc
      from (watching w) k (inl (e, d)) = d
      from (watching w) k (inr (e, u)) = absurd cc
