-- ===== src/Startup/Trace.antt =====
-- What may follow what among the calls of a run, the last one first.
use docker_vrising.Prelude.{Bool, true, false, ◌&&◌, not, some, List, [], ◌∷◌, any, ◌≡◌, arith}
use docker_vrising.Prelude.Result.{Result, ok, err}
use docker_vrising.Steam.{post_mutation}
use docker_vrising.Startup.Host.{
  Call, steam_updated, rolled_back, server_started, promoted, committed, recovery_required, Host,
  Action, handle, branch,
}

abbrev pub is_start : Call → Bool
is_start (server_started request) = true
is_start _ = false

-- An update that failed after it had begun to change the game.
abbrev pub is_broken_update : Call → Bool
is_broken_update (steam_updated target (some (post_mutation e))) = true
is_broken_update _ = false

-- A promotion that is done, or that has to be completed by the next run.
abbrev pub is_kept_promotion : Call → Bool
is_kept_promotion (promoted committed) = true
is_kept_promotion (promoted recovery_required) = true
is_kept_promotion _ = false

-- The call may follow these: the server is started once, and not on a broken game; a candidate is
-- rolled back only if its promotion was not done.
abbrev pub may_follow : Call → List Call → Bool
may_follow (server_started request) before =
    not (any is_start before) && not (any is_broken_update before)
may_follow rolled_back before = not (any is_kept_promotion before)
may_follow _ before = true

abbrev pub is_orderly : List Call → Bool
is_orderly [] = true
is_orderly (c ∷ before) = may_follow c before && is_orderly before

-- Nothing has happened that rules out what follows.
abbrev pub is_early : List Call → Bool
is_early calls =
    not (any is_start calls)
    && (not (any is_broken_update calls) && (not (any is_kept_promotion calls) && is_orderly calls))

abbrev pub Calm : {E A : Type 0} → Action E A → Type 0
Calm m = (h : Host) → is_early h.calls ≡ true → is_early (m h).1.calls ≡ true

abbrev pub Ends : {E A : Type 0} → Action E A → Type 0
Ends m = (h : Host) → is_early h.calls ≡ true → is_orderly (m h).1.calls ≡ true

-- An error may come after a broken update, a value not.
abbrev pub Settles : {E A : Type 0} → Result E A × Host → Type 0
Settles (ok a, h) = is_early h.calls ≡ true
Settles (err e, h) = is_orderly h.calls ≡ true

abbrev pub Steps : {E A : Type 0} → Action E A → Type 0
Steps m = (h : Host) → is_early h.calls ≡ true → Settles (m h)

abbrev pub Keeps : {E A : Type 0} → Action E A → Type 0
Keeps m = (h : Host) → is_orderly h.calls ≡ true → is_orderly (m h).1.calls ≡ true

module _ {E F A B : Type 0} (m : Action E A) (failed : E → Action F B) (next : A → Action F B) where
  branch-Ends :
      (r : Result E A) (h : Host)
      → is_early h.calls ≡ true
      → ((e : E) → Ends (failed e))
      → ((a : A) → Ends (next a))
      → is_orderly (branch r failed next h).1.calls ≡ true
  branch-Ends (ok a) h early f n = n a h early
  branch-Ends (err e) h early f n = f e h early

  pub Ends-handle :
      Calm m → ((e : E) → Ends (failed e)) → ((a : A) → Ends (next a)) → Ends (handle m failed next)
  Ends-handle calm f n h early = branch-Ends (m h).0 (m h).1 (calm h early) f n

  branch-Steps :
      (r : Result E A × Host)
      → Settles r
      → ((e : E) → Keeps (failed e))
      → ((a : A) → Ends (next a))
      → is_orderly (branch r.0 failed next r.1).1.calls ≡ true
  branch-Steps (ok a, h) s f n = n a h s
  branch-Steps (err e, h) s f n = f e h s

  pub Ends-Steps :
      Steps m
      → ((e : E) → Keeps (failed e))
      → ((a : A) → Ends (next a))
      → Ends (handle m failed next)
  Ends-Steps steps f n h early = branch-Steps (m h) (steps h early) f n

  branch-Calm :
      (r : Result E A) (h : Host)
      → is_early h.calls ≡ true
      → ((e : E) → Calm (failed e))
      → ((a : A) → Calm (next a))
      → is_early (branch r failed next h).1.calls ≡ true
  branch-Calm (ok a) h early f n = n a h early
  branch-Calm (err e) h early f n = f e h early

  pub Calm-handle :
      Calm m → ((e : E) → Calm (failed e)) → ((a : A) → Calm (next a)) → Calm (handle m failed next)
  Calm-handle calm f n h early = branch-Calm (m h).0 (m h).1 (calm h early) f n

pub Calm-Ends : {E A : Type 0} (m : Action E A) → Calm m → Ends m
Calm-Ends m calm h early = ground (arith, calm h early)
