-- ===== src/Trending/Flushes.antt =====
-- processors/trending.py: what the flushes write and commit.
use wikistream_kafka.Prelude.{
  ℕ, ◌≡◌, refl, sym, ap, subst, inl, inr, Bool, true, false, none, some, List, [], ◌∷◌, In,
  In-append, nat_eq, arith,
}
use wikistream_kafka.Dict
use wikistream_kafka.Dict.{Dict}
use wikistream_kafka.Offset.{Offset, AtMost}
use wikistream_kafka.Models.{CleanEvent}
use wikistream_kafka.Transform.{event_time_ms}
use wikistream_kafka.Windows.{
  ClosedWindow, WindowKey, key_eq, Window, PartitionState, MinuteWindows, default_lateness_ms,
  max_windows_per_partition, add,
}
use wikistream_kafka.Windows.Close.{pop_closed, commit_offsets}
use wikistream_kafka.Windows.Exact.{IsExact}
use wikistream_kafka.Windows.Runs
use wikistream_kafka.Windows.Runs.{Logs, log_edit, log_revoke}
use wikistream_kafka.Windows.Reached.{pop_closed-IsExact}
use wikistream_kafka.Windows.Commit.{commit_offsets_safe}
use wikistream_kafka.Trending.{
  Readers, Message, Trending, trending, Effect, write, commit, count_edit, handle, writes, commits,
  flush, on_revoke,
}

-- The runs of the processor: messages, flushes and revoked partitions, in any order. The index
-- holds the accepted edits of each partition, as `Runs.Logs`.
pub data Reach (r : Readers) : Trending → Logs → Type 0 where
  start : (now : ℕ) → Reach r (trending now) (λ p. [])
  counted :
      {t : Trending} {logs : Logs}
      → Reach r t logs
      → (m : Message) (e : CleanEvent) → r.from_json m.value ≡ some e
      → Reach r (handle r t m) (
          log_edit t.windows logs m.partition m.offset e.wiki e.title
            (event_time_ms r.event_ms e (some m.timestamp)))
  unreadable :
      {t : Trending} {logs : Logs}
      → Reach r t logs
      → (m : Message) → r.from_json m.value ≡ none
      → Reach r (handle r t m) logs
  flushed :
      {t : Trending} {logs : Logs}
      → Reach r t logs
      → (final : Bool) (now : ℕ) → Reach r (flush t final now).0 logs
  revoked :
      {t : Trending} {logs : Logs}
      → Reach r t logs
      → (ps : List ℕ) (now : ℕ) → Reach r (on_revoke t ps now).0 (log_revoke logs ps)

abbrev WindowsReach : MinuteWindows → Logs → Type 0
WindowsReach = Runs.Reach default_lateness_ms max_windows_per_partition

windows-count_edit : (t : Trending) (x : MinuteWindows × Bool) → (count_edit t x).windows ≡ x.0
unfolding count_edit
windows-count_edit t (windows, true) = refl
windows-count_edit t (windows, false) = refl

windows-Reach :
    {r : Readers} {t : Trending} {logs : Logs} → Reach r t logs → WindowsReach t.windows logs
unfolding handle flush on_revoke
windows-Reach (start now) = Runs.start
windows-Reach {r} (counted {t} {logs} reach m e q) =
    let at = event_time_ms r.event_ms e (some m.timestamp) in
    rw (handle, q, windows-count_edit t (add t.windows m.partition m.offset e.wiki e.title at))
      (Runs.edit (windows-Reach reach) m.partition m.offset e.wiki e.title at)
windows-Reach {r} (unreadable {t} {logs} reach m q) = rw (handle, q) (windows-Reach reach)
windows-Reach (flushed {t} {logs} reach final now) = Runs.pop (windows-Reach reach) final
windows-Reach (revoked {t} {logs} reach ps now) =
    Runs.rebalance (Runs.pop (windows-Reach reach) true) ps

write-injective : (xs ys : List ClosedWindow) → write xs ≡ write ys → ys ≡ xs
write-injective xs ys h =
    let f : Effect → List ClosedWindow = λ e. elim e [ write zs ↦ zs | commit o ↦ xs ] in
    sym (ap f h)

commit-injective : (xs ys : Dict ℕ Offset) → commit xs ≡ commit ys → ys ≡ xs
commit-injective xs ys h =
    let f : Effect → Dict ℕ Offset = λ e. elim e [ write zs ↦ xs | commit o ↦ o ] in sym (ap f h)

written_rows : (closed rows : List ClosedWindow) → In (write rows) (writes closed) → closed ≡ rows
written_rows [] rows i = elim i [ ]
written_rows (c ∷ closed) rows (inl e) = write-injective rows (c ∷ closed) e
written_rows (c ∷ closed) rows (inr i) = elim i [ ]

no_commit : (closed : List ClosedWindow) (o : Dict ℕ Offset) → In (commit o) (writes closed) → ⊥
no_commit [] o i = elim i [ ]
no_commit (c ∷ closed) o (inl e) = absurd (ground arith)
no_commit (c ∷ closed) o (inr i) = elim i [ ]

no_write :
    (offsets : Dict ℕ Offset) (rows : List ClosedWindow) → In (write rows) (commits offsets) → ⊥
no_write [] rows i = elim i [ ]
no_write (o ∷ offsets) rows (inl e) = absurd (ground arith)
no_write (o ∷ offsets) rows (inr i) = elim i [ ]

committed : (offsets o : Dict ℕ Offset) → In (commit o) (commits offsets) → offsets ≡ o
committed [] o i = elim i [ ]
committed (x ∷ offsets) o (inl e) = commit-injective o (x ∷ offsets) e
committed (x ∷ offsets) o (inr i) = elim i [ ]

-- After any messages, flushes and revoked partitions, every row that a flush writes to the
-- database, at an interval, on a rebalance or at the stop, is the exact number of edits accepted
-- for its page and minute on one of the partitions.
pub flush-IsExact :
    {r : Readers} {t : Trending} {logs : Logs}
    → Reach r t logs
    → (final : Bool) (now : ℕ) (rows : List ClosedWindow) → In (write rows) (flush t final now).1
    → (c : ClosedWindow) → In c rows
    → (p : ℕ) × IsExact (logs p) c
unfolding flush
flush-IsExact {t} {logs} reach final now rows i c j =
    let closed = (pop_closed t.windows final).1 in
    let offsets = commit_offsets (pop_closed t.windows final).0 in
    elim (In-append (write rows) (writes closed) (commits offsets) i) [
      | inl w ↦
          pop_closed-IsExact (windows-Reach reach) final c
            (subst (λ (x : List ClosedWindow). In c x) (sym (written_rows closed rows w)) j)
      | inr w ↦ absurd (no_write offsets rows w)
    ]

-- After any messages, flushes and revoked partitions, the offsets that a flush commits lie at or
-- before every edit that a window still open after the flush counts, so that the owner that
-- resumes there reads the edit again.
pub flush_commit_safe :
    {r : Readers} {t : Trending} {logs : Logs}
    → Reach r t logs
    → (final : Bool) (now : ℕ) (offsets : Dict ℕ Offset) → In (commit offsets) (flush t final now).1
    → (p : ℕ) (offset : Offset) → Dict.get offsets p ≡ some offset
    → (s : PartitionState) × (Dict.get (flush t final now).0.windows.partitions p ≡ some s)
      × ((k : WindowKey) (w : Window) (o : ℕ)
          → Dict.get s.windows k ≡ some w
          → In (k, o) (logs p)
          → AtMost offset (some o))
unfolding flush
flush_commit_safe {t} {logs} reach final now offsets i p offset g =
    let closed = (pop_closed t.windows final).1 in
    let m = (pop_closed t.windows final).0 in
    elim (In-append (commit offsets) (writes closed) (commits (commit_offsets m)) i) [
      | inl w ↦ absurd (no_commit closed offsets w)
      | inr w ↦
          let (s, at, safe) = commit_offsets_safe (Runs.pop (windows-Reach reach) final) p offset (
            subst (λ (x : Dict ℕ Offset). Dict.get x p ≡ some offset)
              (sym (committed (commit_offsets m) offsets w)) g) in
          (s, at, safe)
    ]
