-- ===== src/Readiness/Lines/Chunks.antt =====
-- Cutting a log into lines does not depend on the chunks in which it is read.
use docker_vrising.Prelude.{
  ℕ, zero, suc, ◌+◌, ◌≤◌, ◌≡◌, refl, sym, ap, ◌∙◌, List, [], ◌∷◌, ◌++◌, ◌==◌, nat_eq, ltb, length,
  length-append, Bytes, none, some, Bool-cases, Option-cases, inl, inr, arith, if◌then◌else◌,
}
use docker_vrising.Prelude.Result.{Result, ok, err, ◌>>=◌, Result-cases}
use mathlib.Core.List.{append-nil, append_assoc}
use docker_vrising.Steam.Console.{trim_return}
use docker_vrising.Readiness.Lines.{
  LineError, line_too_long, Lines, add_line, cut_newline, keep_rest, end_line, one_round,
  lines_from, complete_lines, max_readiness_input_bytes,
}

module _ (limit : ℕ) where
  -- The same, byte by byte.
  feed : Bytes → Bytes → Result LineError Lines
  feed remainder [] = ok ([], remainder)
  feed remainder (c ∷ content) =
      let line = feed [] content in
      let rest = feed (remainder ++ (c ∷ [])) content in
      if c == 10
      then line >>= (λ l. ok (add_line (trim_return remainder) l))
      else if ltb limit (length remainder + 1)
      then err line_too_long
      else rest

  feed-plain :
      (content remainder : Bytes)
      → length remainder ≤ limit
      → cut_newline content ≡ none
      → feed remainder content ≡ keep_rest limit remainder content
  unfolding cut_newline feed
  feed-plain [] remainder fits h = ground (arith, append-nil remainder)
  feed-plain (c ∷ content) remainder fits h = ground (
    arith,
    feed-plain content (remainder ++ (c ∷ [])),
    append_assoc remainder (c ∷ []) content,
    length-append remainder (c ∷ []),
  )

  -- The line is cut off where the newline stands.
  feed-line :
      (content remainder : Bytes) {before after : Bytes}
      → length remainder ≤ limit
      → cut_newline content ≡ some (before, after)
      → feed remainder content ≡ end_line limit feed remainder before after
  unfolding cut_newline feed
  feed-line [] remainder fits h = cc
  feed-line (c ∷ content) remainder fits h = elim (Option-cases (cut_newline content)) [
    | inl e ↦ ground (arith, append-nil remainder)
    | inr ((x, y), e) ↦ ground (
      arith,
      append-nil remainder,
      feed-line content (remainder ++ (c ∷ [])) {before = x} {after = y},
      append_assoc remainder (c ∷ []) x,
      length-append remainder (c ∷ []),
    )
  ]

  cut_newline-shorter :
      (content : Bytes) {before after : Bytes}
      → cut_newline content ≡ some (before, after)
      → suc (length after) ≤ length content
  unfolding cut_newline
  cut_newline-shorter [] h = cc
  cut_newline-shorter (c ∷ content) h = elim (Option-cases (cut_newline content)) [
    | inl e ↦ ground arith
    | inr ((x, y), e) ↦ ground (arith, cut_newline-shorter content {before = x} {after = y} e)
  ]

  -- The loop has fuel for any content that is no longer than it.
  lines_from-feed :
      (fuel : ℕ) (content remainder : Bytes)
      → length content ≤ fuel
      → length remainder ≤ limit
      → lines_from limit fuel remainder content ≡ feed remainder content
  unfolding lines_from feed
  lines_from-feed fuel [] remainder enough fits = refl
  lines_from-feed zero (c ∷ content) remainder enough fits = ground arith
  lines_from-feed (suc fuel) (c ∷ content) remainder enough fits =
      elim (Option-cases (cut_newline (c ∷ content))) [
        | inl e ↦
            ap (one_round limit (lines_from limit fuel) remainder (c ∷ content)) e
            ∙ sym (feed-plain (c ∷ content) remainder fits e)
        | inr ((x, y), e) ↦
            let shorter = cut_newline-shorter (c ∷ content) e in
            ap (one_round limit (lines_from limit fuel) remainder (c ∷ content)) e
            ∙ ap
                (λ r.
                  if ltb limit (length remainder + length x)
                  then err line_too_long
                  else r >>= (λ (l : Lines). ok (add_line (trim_return (remainder ++ x)) l)))
                (lines_from-feed fuel y [] (omega (arith, shorter, enough)) (omega arith))
            ∙ sym (feed-line (c ∷ content) remainder fits e)
      ]

  abbrev append_lines : List Bytes → Result LineError Lines → Result LineError Lines
  append_lines lines (err e) = err e
  append_lines lines (ok (more, remainder)) = ok (lines ++ more, remainder)

  abbrev feed_after : Bytes → Result LineError Lines → Result LineError Lines
  feed_after content (err e) = err e
  feed_after content (ok (lines, remainder)) = append_lines lines (feed remainder content)

  append_lines-nil : (r : Result LineError Lines) → append_lines [] r ≡ r
  append_lines-nil (err e) = refl
  append_lines-nil (ok (lines, remainder)) = refl

  feed_after-add :
      (content line : Bytes) (r : Result LineError Lines)
      → (feed_after content r >>= (λ l. ok (add_line line l)))
        ≡ feed_after content (r >>= (λ l. ok (add_line line l)))
  feed_after-add content line (err e) = refl
  feed_after-add content line (ok (lines, remainder)) = from (feed remainder content)
    where
      from :
          (r : Result LineError Lines)
          → (append_lines lines r >>= (λ l. ok (add_line line l))) ≡ append_lines (line ∷ lines) r
      from (err e) = refl
      from (ok (more, rest)) = refl

  feed-append :
      (first second remainder : Bytes)
      → feed remainder (first ++ second) ≡ feed_after second (feed remainder first)
  unfolding feed
  feed-append [] second remainder = sym (append_lines-nil (feed remainder second))
  feed-append (c ∷ first) second remainder = elim (Bool-cases (c == 10)) [
    | inl e ↦ ground (
      arith,
      feed-append first second [],
      feed_after-add second (trim_return remainder) (feed [] first),
    )
    | inr e ↦ ground (arith, feed-append first second (remainder ++ (c ∷ [])))
  ]

  feed-fits :
      (content remainder : Bytes) {lines : List Bytes} {rest : Bytes}
      → length remainder ≤ limit
      → feed remainder content ≡ ok (lines, rest)
      → length rest ≤ limit
  unfolding feed
  feed-fits [] remainder fits h = ground arith
  feed-fits (c ∷ content) remainder {lines = lines} {rest = rest} fits h =
      elim (Bool-cases (c == 10)) [
        | inl e ↦ elim (Result-cases (feed [] content)) [
          | inl ((more, last), k) ↦
              ground (arith, feed-fits content [] {lines = more} {rest = last})
          | inr (r, k) ↦ ground arith
        ]
        | inr e ↦ ground (
          arith,
          feed-fits content (remainder ++ (c ∷ [])) {lines = lines} {rest = rest},
          length-append remainder (c ∷ []),
        )
      ]

-- Two calls, the second with the remainder of the first.
abbrev pub complete_chunks : Bytes → Bytes → Bytes → Result LineError Lines
complete_chunks remainder first second = do
  a ← complete_lines remainder first
  b ← complete_lines a.1 second
  ok (a.0 ++ b.0, b.1)

complete_lines-feed :
    (content remainder : Bytes)
    → length remainder ≤ max_readiness_input_bytes
    → complete_lines remainder content ≡ feed max_readiness_input_bytes remainder content
unfolding complete_lines
complete_lines-feed content remainder fits =
    lines_from-feed max_readiness_input_bytes (length content) content remainder (omega arith) fits

-- What is read in two chunks gives the same lines, the same remainder and the same error as in one, if
-- the remainder at the start is no longer than a line may be.
pub complete_lines-append :
    (first second remainder : Bytes)
    → length remainder ≤ max_readiness_input_bytes
    → complete_lines remainder (first ++ second) ≡ complete_chunks remainder first second
complete_lines-append first second remainder fits =
    complete_lines-feed (first ++ second) remainder fits
    ∙ feed-append max_readiness_input_bytes first second remainder
    ∙ from (feed max_readiness_input_bytes remainder first) refl
    ∙ ap chunks (sym (complete_lines-feed first remainder fits))
  where
    second_chunk : Lines → Result LineError Lines
    second_chunk a = complete_lines a.1 second >>= (λ (b : Lines). ok (a.0 ++ b.0, b.1))

    chunks : Result LineError Lines → Result LineError Lines
    chunks r = r >>= second_chunk

    added :
        (lines : List Bytes) (r : Result LineError Lines)
        → append_lines max_readiness_input_bytes lines r
          ≡ (r >>= (λ (b : Lines). ok (lines ++ b.0, b.1)))
    added lines (err e) = refl
    added lines (ok (more, rest)) = refl

    from :
        (r : Result LineError Lines)
        → feed max_readiness_input_bytes remainder first ≡ r
        → feed_after max_readiness_input_bytes second r ≡ chunks r
    from (err e) h = refl
    from (ok (lines, rest)) h =
        ap (append_lines max_readiness_input_bytes lines) (
          sym (
            complete_lines-feed second rest
              (feed-fits max_readiness_input_bytes first remainder fits h)))
        ∙ added lines (complete_lines rest second)
