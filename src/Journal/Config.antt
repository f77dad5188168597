-- ===== src/Journal/Config.antt =====
-- The configuration's entry of a journal that the check accepts shares no path with the others.
use docker_vrising.Prelude.{
  ℕ, suc, ◌≡◌, subst, true, false, Option, none, some, List, [], ◌∷◌, All, Bytes, length,
}
use docker_vrising.Prelude.Result.{ok, >>=-eq-ok}
use docker_vrising.Path.{AbsolutePath}
use docker_vrising.State.{JournalEntry, GenerationRecord, TransactionJournal, State}
use docker_vrising.Recovery.Frame.{IsIndependent}
use docker_vrising.Journal.{
  SeenPaths, no_paths, check_candidate, validate_entry, validate_entries, validate_config,
  validate_journal, transaction_of, validate_transaction_state,
}
use docker_vrising.Journal.Accepted.{IsFresh, IsFresh-IsIndependent, validate_entry-IsAccepted}

-- What is fresh after the entries was fresh before them, and shares no path with any of them.
validate_entries-IsIndependent :
    (d : AbsolutePath) (id : Bytes) (es : List JournalEntry) (index : ℕ) (c : JournalEntry)
    (seen : SeenPaths) {seen' : SeenPaths}
    → validate_entries d id es index seen ≡ ok seen'
    → IsFresh d seen' c
    → IsFresh d seen c × All (λ e. IsIndependent e c) es
unfolding validate_entries
validate_entries-IsIndependent d id [] index c seen {seen' = seen'} h fresh =
    let same : seen' ≡ seen = cc in (subst (λ s. IsFresh d s c) same fresh, tt)
validate_entries-IsIndependent d id (e ∷ es) index c seen h fresh =
    let (a, entry_ok, rest) = >>=-eq-ok (validate_entry d id e index false seen) _ h in
    let (later, apart) = validate_entries-IsIndependent d id es (suc index) c a rest fresh in
    let accepted = validate_entry-IsAccepted d id e index false seen entry_ok in
    let (before, first) =
      IsFresh-IsIndependent d seen e c (subst (λ s. IsFresh d s c) accepted.claimed later) in
    (before, (first, apart))

-- No entry of the journal shares a path with the configuration's.
abbrev pub IsApart : Option JournalEntry → List JournalEntry → Type 0
IsApart none es = Unit
IsApart (some c) es = All (λ e. IsIndependent e c) es

validate_config-IsApart :
    (d : AbsolutePath) (id : Bytes) (o : Option JournalEntry) (es : List JournalEntry)
    {seen seen' : SeenPaths}
    → validate_entries d id es 0 no_paths ≡ ok seen
    → validate_config d id o (length es) seen ≡ ok seen'
    → IsApart o es
unfolding validate_config
validate_config-IsApart d id none es entries_ok h = tt
validate_config-IsApart d id (some c) es {seen = seen} entries_ok h =
    let accepted = validate_entry-IsAccepted d id c (length es) true seen h in
    (validate_entries-IsIndependent d id es 0 c no_paths entries_ok accepted.fresh).1

validate_journal-IsApart :
    (d : AbsolutePath) (candidate : GenerationRecord) (journal : TransactionJournal)
    → validate_journal d candidate journal ≡ ok tt
    → IsApart journal.config journal.entries
unfolding validate_journal
validate_journal-IsApart d candidate journal h =
    let (_, _, rest) = >>=-eq-ok (check_candidate candidate journal) _ h in
    let (seen, entries_ok, rest') =
      >>=-eq-ok (validate_entries d candidate.id journal.entries 0 no_paths) _ rest in
    let (_, config_ok, _) =
      >>=-eq-ok (validate_config d candidate.id journal.config (length journal.entries) seen) _
        rest' in
    validate_config-IsApart d candidate.id journal.config journal.entries entries_ok config_ok

transaction_of-IsApart :
    (d : AbsolutePath) (t : Option TransactionJournal) (c : Option GenerationRecord)
    (journal : TransactionJournal)
    → t ≡ some journal
    → transaction_of d t c ≡ ok tt
    → IsApart journal.config journal.entries
transaction_of-IsApart d none c journal present h = cc
transaction_of-IsApart d (some j) none journal present h = cc
transaction_of-IsApart d (some j) (some c) journal present h =
    let same : j ≡ journal = cc in
    subst (λ k. IsApart k.config k.entries) same (validate_journal-IsApart d c j h)

pub validate-IsApart :
    (s : State) (d : AbsolutePath) (journal : TransactionJournal)
    → s.transaction ≡ some journal
    → validate_transaction_state s d ≡ ok tt
    → IsApart journal.config journal.entries
unfolding validate_transaction_state
validate-IsApart s d journal present h =
    transaction_of-IsApart d s.transaction s.candidate journal present h
