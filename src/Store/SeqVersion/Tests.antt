-- ===== src/Store/SeqVersion/Tests.antt =====
-- Runs of store/seqversion.go at single inputs.
use golang_collector.Base.{◌≡◌, refl, true, false, some, inl, inr, [], ◌∷◌}
use golang_collector.Base.Int.{pos}
use golang_collector.Base.Text.{Text, codes}
use golang_collector.Store.SeqVersion.{
  AdVersion, KeyedText, Lookup, present, newer_than, version_from_text, ours, resolve_conflicts,
}
use golang_collector.Store.SeqVersion.Conflicts.{has, resolve_conflicts_complete}

abbrev restarted : AdVersion
restarted = record { start_time = pos 20; seq_no = pos 1; valid = true }

abbrev running : AdVersion
running = record { start_time = pos 10; seq_no = pos 99; valid = true }

abbrev unversioned : AdVersion
unversioned = record { start_time = pos 0; seq_no = pos 0; valid = false }

abbrev fresh : Text
fresh = codes "daemonstarttime = 20\nUpdateSequenceNumber=3\n"

abbrev old : Text
old = codes "DaemonStartTime = 10\nUpdateSequenceNumber = 7\n"

abbrev update : KeyedText
update = record { key = codes "k"; text = fresh }

abbrev stored : Text → Lookup
stored key = present old

resolve_conflicts-rewrites :
    resolve_conflicts (some (codes "k" ∷ [])) stored (update ∷ []) ≡ update ∷ []
unfolding resolve_conflicts version_from_text newer_than
resolve_conflicts-rewrites = refl

resolve_conflicts_complete_example :
    has (codes "k") fresh (resolve_conflicts (some (codes "k" ∷ [])) stored (update ∷ [])) ≡ true
unfolding ours version_from_text newer_than
resolve_conflicts_complete_example =
    resolve_conflicts_complete (codes "k" ∷ []) stored (update ∷ []) update
      (record { conflicted = refl; from_batch = refl; versioned = refl; stored = inr (inl refl) })
